-- ===== src/Executor/Functions.antt =====
-- src/executor/function.h and function.cpp: the scalar functions and their registry. An argument that
-- a call lacks, which the counts in the registry exclude, is NULL.
use seeddb.Base.{
  ℕ, Bool, true, false, not, List, [], ◌∷◌, ◌++◌, map, Option, none, some, Bytes, ◌+◌, ◌-◌, ◌*◌,
  ◌^◌, leb, ◌==◌, ◌&&◌, ◌||◌, if◌then◌else◌, length, get_or, take, drop, u32, codes,
}
use seeddb.Common.LogicalType.{LogicalTypeId, integer, bigint, is_integer, is_string}
use seeddb.Common.Value.{
  Value, null_value, integer_value, bigint_value, double_value, varchar_value, is_null, as_int64,
  str_equal, signed64,
}
use seeddb.Common.Numerics.{Numerics}
use seeddb.Base.Int.{is_positive}
use seeddb.Executor.Operators.{to_double}

pub record FunctionInfo : Type 0 where
  pub name : Bytes
  pub min_args : ℕ
  pub max_args : ℕ
  pub impl : List Value → Value

abbrev pub arg : List Value → ℕ → Value
arg args i = get_or args i null_value

-- `::toupper` and `::tolower` in the C locale.
unfoldable pub to_upper : ℕ → ℕ
to_upper c = if leb b'a' c && leb c b'z' then c - 32 else c

unfoldable pub to_lower : ℕ → ℕ
to_lower c = if leb b'A' c && leb c b'Z' then c + 32 else c

-- `normalizeName`
unfoldable pub normalize_name : Bytes → Bytes
unfolding to_upper
normalize_name name = map to_upper name

-- The map from normalized names.
abbrev pub Registry : Type 0
Registry = Bytes → Option FunctionInfo

unfoldable pub register_function : Registry → FunctionInfo → Registry
unfolding normalize_name
register_function functions info key =
    if str_equal (normalize_name info.name) key then some info else functions key

unfoldable pub lookup : Registry → Bytes → Option FunctionInfo
unfolding normalize_name
lookup functions name = functions (normalize_name name)

unfoldable pub length_function : List Value → Value
length_function args =
    if is_null (arg args 0) then null_value else bigint_value (length (arg args 0).str)

unfoldable pub upper_function : List Value → Value
unfolding to_upper
upper_function args =
    if is_null (arg args 0) then null_value else varchar_value (map to_upper (arg args 0).str)

unfoldable pub lower_function : List Value → Value
unfolding to_lower
lower_function args =
    if is_null (arg args 0) then null_value else varchar_value (map to_lower (arg args 0).str)

-- A character of " \t\n\r\f\v".
unfoldable pub is_blank : ℕ → Bool
is_blank c = c == 32 || c == 9 || c == 10 || c == 13 || c == 12 || c == 11

-- `find_first_not_of` and `find_last_not_of`, from index `i` on.
unfoldable pub first_not_blank : ℕ → Bytes → Option ℕ
unfolding is_blank
first_not_blank i [] = none
first_not_blank i (c ∷ s) =
    let rest = first_not_blank (i + 1) s in if is_blank c then rest else some i

unfoldable pub last_not_blank : ℕ → Bytes → Option ℕ
unfolding is_blank
last_not_blank i [] = none
last_not_blank i (c ∷ s) = elim (last_not_blank (i + 1) s) [
  | some j ↦ some j
  | none ↦ if is_blank c then none else some i
]

-- `substr`, from a position that is in range.
abbrev pub substr : Bytes → ℕ → ℕ → Bytes
substr s pos n = take n (drop pos s)

unfoldable pub trim : Bytes → Bytes
unfolding first_not_blank last_not_blank
trim s = elim (first_not_blank 0 s) [
  | none ↦ []
  | some start ↦ elim (last_not_blank 0 s) [
    | none ↦ []
    | some last ↦ substr s start (last - start + 1)
  ]
]

unfoldable pub trim_function : List Value → Value
unfolding trim
trim_function args =
    if is_null (arg args 0) then null_value else varchar_value (trim (arg args 0).str)

abbrev any_null : List Value → Bool
any_null [] = false
any_null (v ∷ vs) = is_null v || any_null vs

-- `asInt64` of the start and the length, whatever their types.
unfoldable pub substring_function : List Value → Value
substring_function args =
    let s = (arg args 0).str in
    let start = as_int64 (arg args 1) in
    let len = as_int64 (arg args 2) in
    let pos = start - 1 in
    if any_null args
    then null_value
    else if not (is_positive (signed64 start))
    then null_value
    else if leb (length s) pos
    then varchar_value []
    else if length args == 3
    then if leb (2 ^ 63) len then null_value else varchar_value (substr s pos len)
    else varchar_value (drop pos s)

module _ (num : Numerics) where
  -- The loop of CONCAT: the text so far, and whether all arguments were NULL.
  unfoldable pub concat_loop : Bytes → Bool → List Value → Bytes × Bool
  unfolding is_string
  concat_loop result all_null [] = (result, all_null)
  concat_loop result all_null (v ∷ vs) =
      concat_loop
        (if is_null v
          then result
          else if is_string v.type
          then result ++ v.str
          else result ++ num.to_string v)
        (if is_null v then all_null else false) vs

  unfoldable pub concat_function : List Value → Value
  unfolding concat_loop
  concat_function args =
      let (result, all_null) = concat_loop [] true args in
      if all_null then null_value else varchar_value result

  -- The result's type follows the argument's.
  abbrev abs_at : LogicalTypeId → ℕ → Value
  abs_at integer x = integer_value (num.to_int32 x)
  abs_at bigint x = bigint_value (num.to_int64 x)
  abs_at _ x = double_value x

  unfoldable pub abs_function : List Value → Value
  unfolding to_double
  abs_function args =
      let x = to_double num (arg args 0) in
      if is_null (arg args 0)
      then null_value
      else abs_at (arg args 0).type (if num.tests.lt64 x 0 then num.neg64 x else x)

  unfoldable pub round_function : List Value → Value
  unfolding to_double
  round_function args =
      let decimals =
        if length args == 2 && not (is_null (arg args 1)) then u32 (as_int64 (arg args 1)) else 0 in
      let factor = num.pow10 decimals in
      if is_null (arg args 0)
      then null_value
      else double_value
          (num.div64 (num.round (num.mul64 (to_double num (arg args 0)) factor)) factor)

  unfoldable pub ceil_function : List Value → Value
  unfolding to_double
  ceil_function args =
      if is_null (arg args 0)
      then null_value
      else bigint_value (num.to_int64 (num.ceil (to_double num (arg args 0))))

  unfoldable pub floor_function : List Value → Value
  unfolding to_double
  floor_function args =
      if is_null (arg args 0)
      then null_value
      else bigint_value (num.to_int64 (num.floor (to_double num (arg args 0))))

  -- The bit pattern of 1.0 is 1023 * 2 ^ 52.
  unfoldable pub mod_function : List Value → Value
  unfolding to_double is_integer
  mod_function args =
      let divisor = to_double num (arg args 1) in
      let result = num.fmod (to_double num (arg args 0)) divisor in
      if is_null (arg args 0) || is_null (arg args 1)
      then null_value
      else if num.tests.eq64 divisor (1023 * 2 ^ 52)
      then null_value
      else if is_integer (arg args 0).type && is_integer (arg args 1).type
      then bigint_value (num.to_int64 result)
      else double_value result

  -- What the constructor of the registry registers.
  abbrev pub built_in : List FunctionInfo
  built_in =
      record { name = codes "LENGTH"; min_args = 1; max_args = 1; impl = length_function }
      ∷ record { name = codes "UPPER"; min_args = 1; max_args = 1; impl = upper_function }
      ∷ record { name = codes "LOWER"; min_args = 1; max_args = 1; impl = lower_function }
      ∷ record { name = codes "TRIM"; min_args = 1; max_args = 1; impl = trim_function }
      ∷ record { name = codes "SUBSTRING"; min_args = 2; max_args = 3; impl = substring_function }
      ∷ record { name = codes "CONCAT"; min_args = 2; max_args = 100; impl = concat_function }
      ∷ record { name = codes "ABS"; min_args = 1; max_args = 1; impl = abs_function }
      ∷ record { name = codes "ROUND"; min_args = 1; max_args = 2; impl = round_function }
      ∷ record { name = codes "CEIL"; min_args = 1; max_args = 1; impl = ceil_function }
      ∷ record { name = codes "FLOOR"; min_args = 1; max_args = 1; impl = floor_function }
      ∷ record { name = codes "MOD"; min_args = 2; max_args = 2; impl = mod_function }
      ∷ []

  abbrev register_all : Registry → List FunctionInfo → Registry
  register_all functions [] = functions
  register_all functions (f ∷ fs) = register_all (register_function functions f) fs

  unfoldable pub registry : Registry
  unfolding register_function
  registry = register_all (λ key. none) built_in
