-- ===== src/Common/Value.antt =====
-- src/common/value.h: a runtime SQL value. The union is its eight bytes, read as a little-endian
-- number; floating-point numbers are their IEEE bit patterns.
pub mod Order
mod Tests
use seeddb.Base.{
  ℕ, ◌%◌, ◌^◌, ◌-◌, Bool, true, false, not, List, [], ◌∷◌, Bytes, ltb, ◌==◌, if◌then◌else◌, ◌&&◌,
  ◌||◌,
}
use seeddb.Base.Int.{ℤ, pos, negsuc, ltb_int}
use seeddb.Common.LogicalType.{
  LogicalTypeId, sql_null, integer, bigint, float, double, varchar, boolean, unknown, type_number,
}

pub record Value : Type 0 where
  pub type : LogicalTypeId
  pub bits : ℕ
  pub str : Bytes

-- The factories. `Data()` has cleared the union, so the upper bytes are zero.
abbrev pub null_value : Value
null_value = record { type = sql_null; bits = 0; str = [] }

abbrev pub integer_value : ℕ → Value
integer_value v = record { type = integer; bits = v; str = [] }

abbrev pub bigint_value : ℕ → Value
bigint_value v = record { type = bigint; bits = v; str = [] }

abbrev pub float_value : ℕ → Value
float_value v = record { type = float; bits = v; str = [] }

abbrev pub double_value : ℕ → Value
double_value v = record { type = double; bits = v; str = [] }

abbrev pub varchar_value : Bytes → Value
varchar_value s = record { type = varchar; bits = 0; str = s }

abbrev pub boolean_value : Bool → Value
boolean_value b = record { type = boolean; bits = if b then 1 else 0; str = [] }

-- `isNull`
abbrev pub is_null_type : LogicalTypeId → Bool
is_null_type sql_null = true
is_null_type _ = false

unfoldable pub is_null : Value → Bool
is_null v = is_null_type v.type

-- The accessors read the union's bytes whatever the type.
abbrev pub as_int32 : Value → ℕ
as_int32 v = v.bits % 2 ^ 32

abbrev pub as_int64 : Value → ℕ
as_int64 v = v.bits

abbrev pub as_float : Value → ℕ
as_float v = v.bits % 2 ^ 32

abbrev pub as_double : Value → ℕ
as_double v = v.bits

abbrev pub as_string : Value → Bytes
as_string v = v.str

abbrev pub as_bool : Value → Bool
as_bool v = not (v.bits % 256 == 0)

-- The number that a two's complement pattern stands for.
abbrev pub signed32 : ℕ → ℤ
signed32 w = if ltb w (2 ^ 31) then pos w else negsuc (2 ^ 32 - w - 1)

abbrev pub signed64 : ℕ → ℤ
signed64 w = if ltb w (2 ^ 63) then pos w else negsuc (2 ^ 64 - w - 1)

-- The comparisons of the floating-point hardware on bit patterns.
pub record FloatOps : Type 0 where
  pub eq32 : ℕ → ℕ → Bool
  pub lt32 : ℕ → ℕ → Bool
  pub eq64 : ℕ → ℕ → Bool
  pub lt64 : ℕ → ℕ → Bool

-- `std::string` equality and order, by bytes.
unfoldable pub str_equal : Bytes → Bytes → Bool
str_equal [] [] = true
str_equal (x ∷ xs) (y ∷ ys) = x == y && str_equal xs ys
str_equal _ _ = false

unfoldable pub str_less : Bytes → Bytes → Bool
str_less _ [] = false
str_less [] (y ∷ ys) = true
str_less (x ∷ xs) (y ∷ ys) = ltb x y || (x == y && str_less xs ys)

-- Two `bool`s: `false` is the smaller.
abbrev bool_equal : Bool → Bool → Bool
bool_equal true b = b
bool_equal false b = not b

-- `typeId() == other.typeId()`
unfoldable pub same_type : LogicalTypeId → LogicalTypeId → Bool
unfolding type_number
same_type s t = type_number s == type_number t

module _ (fp : FloatOps) where
  -- The last switch of `equals`.
  unfoldable pub equals_at : LogicalTypeId → Value → Value → Bool
  equals_at integer a b = as_int32 a == as_int32 b
  equals_at bigint a b = as_int64 a == as_int64 b
  equals_at float a b = fp.eq32 (as_float a) (as_float b)
  equals_at double a b = fp.eq64 (as_double a) (as_double b)
  equals_at varchar a b = str_equal a.str b.str
  equals_at boolean a b = bool_equal (as_bool a) (as_bool b)
  equals_at _ a b = false

  unfoldable pub equals : Value → Value → Bool
  unfolding is_null same_type equals_at
  equals a b =
      if is_null a && is_null b
      then true
      else if is_null a || is_null b
      then false
      else if not (same_type a.type b.type)
      then false
      else equals_at a.type a b

  -- The last switch of `lessThan`.
  unfoldable pub less_at : LogicalTypeId → Value → Value → Bool
  less_at integer a b = ltb_int (signed32 (as_int32 a)) (signed32 (as_int32 b))
  less_at bigint a b = ltb_int (signed64 (as_int64 a)) (signed64 (as_int64 b))
  less_at float a b = fp.lt32 (as_float a) (as_float b)
  less_at double a b = fp.lt64 (as_double a) (as_double b)
  less_at varchar a b = str_less a.str b.str
  less_at boolean a b = not (as_bool a) && as_bool b
  less_at _ a b = false

  unfoldable pub less_than : Value → Value → Bool
  unfolding is_null same_type less_at
  less_than a b =
      if is_null a && not (is_null b)
      then true
      else if not (is_null a) && is_null b
      then false
      else if is_null a && is_null b
      then false
      else if not (same_type a.type b.type)
      then ltb (type_number a.type) (type_number b.type)
      else less_at a.type a b
