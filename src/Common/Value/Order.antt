-- ===== src/Common/Value/Order.antt =====
-- `Value::equals` and `Value::lessThan` of src/common/value.h together.
use seeddb.Base.{
  ℕ, [], ◌∷◌, Bool, Bytes, ◌<◌, ◌≡◌, false, inr, true, ◌^◌, arith, inl, ◌==◌, ◌⊎◌, refl, eq-cases,
  sym, Bool-cases, ≡→==_true, ◌∙◌, ap, subst,
}
use seeddb.Base.Int.{ltb_int}
use seeddb.Common.LogicalType.{
  LogicalTypeId, sql_null, integer, bigint, float, double, varchar, boolean, unknown, type_number,
  IsTypeId, number_type-type_number, number_type,
}
use seeddb.Common.Value.{
  Value, FloatOps, is_null_type, str_equal, str_less, signed32, signed64, equals, less_than,
  equals_at, less_at, as_float, as_double,
}

-- Exactly one of the three tests answers true.
abbrev pub Exactly : Bool → Bool → Bool → Type 0
Exactly lt gt eq =
    ((lt ≡ true) × (gt ≡ false) × (eq ≡ false))
    ⊎ ((lt ≡ false) × (gt ≡ true) × (eq ≡ false))
    ⊎ ((lt ≡ false) × (gt ≡ false) × (eq ≡ true))

str-Exactly : (a b : Bytes) → Exactly (str_less a b) (str_less b a) (str_equal a b)
unfolding str_less str_equal
str-Exactly [] [] = inr (inr (refl, refl, refl))
str-Exactly [] (y ∷ b) = inl (refl, refl, refl)
str-Exactly (x ∷ a) [] = inr (inl (refl, refl, refl))
str-Exactly (x ∷ a) (y ∷ b) = ground (arith, str-Exactly a b)

signed32-Exactly :
    (a b : ℕ)
    → a < 2 ^ 32
    → b < 2 ^ 32
    → Exactly (ltb_int (signed32 a) (signed32 b)) (ltb_int (signed32 b) (signed32 a)) (a == b)
signed32-Exactly a b ha hb = ground arith

signed64-Exactly :
    (a b : ℕ)
    → a < 2 ^ 64
    → b < 2 ^ 64
    → Exactly (ltb_int (signed64 a) (signed64 b)) (ltb_int (signed64 b) (signed64 a)) (a == b)
signed64-Exactly a b ha hb = ground arith

-- The type is a named one, and the union holds eight bytes.
abbrev pub IsNamed : LogicalTypeId → Type 0
IsNamed (unknown n) = ⊥
IsNamed _ = Unit

null_number : (t : LogicalTypeId) → is_null_type t ≡ true → type_number t ≡ 0
unfolding type_number
null_number sql_null h = refl
null_number integer h = cc
null_number bigint h = cc
null_number float h = cc
null_number double h = cc
null_number varchar h = cc
null_number boolean h = cc
null_number (unknown n) h = cc

IsNamed-IsTypeId : (t : LogicalTypeId) → IsNamed t → IsTypeId t
IsNamed-IsTypeId (unknown n) h = absurd h
IsNamed-IsTypeId _ h = tt

same_number : (s t : LogicalTypeId) → IsNamed s → IsNamed t → type_number s ≡ type_number t → s ≡ t
same_number s t hs ht e =
    sym (number_type-type_number s (IsNamed-IsTypeId s hs))
    ∙ ap number_type e
    ∙ number_type-type_number t (IsNamed-IsTypeId t ht)

module _ (fp : FloatOps) where
  -- The two patterns compare as numbers do, which NaN does not.
  abbrev pub FloatsCompare : LogicalTypeId → Value → Value → Type 0
  FloatsCompare float a b =
      Exactly (fp.lt32 (as_float a) (as_float b)) (fp.lt32 (as_float b) (as_float a))
        (fp.eq32 (as_float a) (as_float b))
  FloatsCompare double a b =
      Exactly (fp.lt64 (as_double a) (as_double b)) (fp.lt64 (as_double b) (as_double a))
        (fp.eq64 (as_double a) (as_double b))
  FloatsCompare _ a b = Unit

  at-Exactly :
      (t : LogicalTypeId) (a b : Value)
      → IsNamed t
      → is_null_type t ≡ false
      → a.bits < 2 ^ 64
      → b.bits < 2 ^ 64
      → FloatsCompare t a b
      → Exactly (less_at fp t a b) (less_at fp t b a) (equals_at fp t a b)
  unfolding less_at equals_at
  at-Exactly integer a b n i ha hb f = signed32-Exactly _ _ (omega arith) (omega arith)
  at-Exactly bigint a b n i ha hb f = signed64-Exactly _ _ ha hb
  at-Exactly float a b n i ha hb f = f
  at-Exactly double a b n i ha hb f = f
  at-Exactly varchar a b n i ha hb f = str-Exactly a.str b.str
  at-Exactly boolean a b n i ha hb f = ground arith
  at-Exactly sql_null a b n i ha hb f = cc
  at-Exactly (unknown k) a b n i ha hb f = absurd n

  -- Of two values of named types exactly one holds: the first is less, the second is less, or they
  -- are equal; where both are floating-point numbers, if their patterns compare so. In particular
  -- NULL equals NULL and is less than any other value, and values of different types are ordered by
  -- their types.
  pub less_than-Exactly :
      (a b : Value)
      → IsNamed a.type
      → IsNamed b.type
      → a.bits < 2 ^ 64
      → b.bits < 2 ^ 64
      → FloatsCompare a.type a b
      → Exactly (less_than fp a b) (less_than fp b a) (equals fp a b)
  unfolding less_than equals
  less_than-Exactly a b na nb ha hb f = elim (eq-cases (type_number a.type) (type_number b.type)) [
    | inr (other, e) ↦ ground (arith, null_number a.type, null_number b.type)
    | inl (same, e) ↦
        let t = same_number a.type b.type na nb same in
        elim (Bool-cases (is_null_type a.type)) [
          | inl gone ↦
              let gone' : is_null_type b.type ≡ true = ap is_null_type (sym t) ∙ gone in
              rw (gone, gone') (inr (inr (refl, refl, refl)))
          | inr there ↦
              let there' : is_null_type b.type ≡ false = ap is_null_type (sym t) ∙ there in
              rw (there, there', e, ≡→==_true _ _ (sym same))
                (subst
                  (λ (s : LogicalTypeId).
                    Exactly (less_at fp a.type a b) (less_at fp s b a) (equals_at fp a.type a b))
                  t (at-Exactly a.type a b na there ha hb f))
        ]
  ]
