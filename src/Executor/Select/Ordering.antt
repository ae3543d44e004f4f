-- ===== src/Executor/Select/Ordering.antt =====
-- ORDER BY's comparisons in src/executor/executor.cpp.
use seeddb.Base.{
  ℕ, Bool, true, false, List, [], ◌∷◌, Option, none, some, ◌≡◌, refl, arith, inl, inr, ◌⊎◌,
  if◌then◌else◌, ◌^◌, ◌<◌, get_or,
}
use seeddb.Base.Int.{ℤ, pos, negsuc, eq_int, is_positive, ltb_int}
use seeddb.Common.Value.{Value, FloatOps, null_value, is_null}
use seeddb.Common.Value.Order.{IsNamed, FloatsCompare, less_than-Exactly}
use seeddb.Common.Numerics.{Numerics}
use seeddb.Storage.Schema.{Row, Schema}
use seeddb.Executor.Rows.{compare_values}
use seeddb.Executor.Select.{OrderByItem, AliasMap, row_before}

-- Two values that `less_than` orders: see `less_than-Exactly`.
abbrev pub AreOrdered : FloatOps → Value → Value → Type 0
AreOrdered fp a b =
    IsNamed a.type
    × IsNamed b.type
    × (a.bits < 2 ^ 64)
    × (b.bits < 2 ^ 64)
    × FloatsCompare fp a.type a b

-- The results of the two comparisons of two values.
abbrev Opposite : ℤ → ℤ → Type 0
Opposite x y =
    ((x ≡ pos 0) × (y ≡ pos 0)) ⊎ ((x ≡ pos 1) × (y ≡ negsuc 0)) ⊎ ((x ≡ negsuc 0) × (y ≡ pos 1))

compare_values-Opposite :
    (fp : FloatOps) (a b : Value)
    → AreOrdered fp a b
    → Opposite (compare_values fp a b) (compare_values fp b a)
unfolding compare_values is_null
compare_values-Opposite fp a b (na, nb, ha, hb, f) =
    grind (arith, less_than-Exactly fp a b na nb ha hb f)

step-asymmetric :
    (x y : ℤ) (descending later later' : Bool)
    → Opposite x y
    → (later ≡ true → later' ≡ false)
    → (if eq_int x (pos 0) then later else if descending then is_positive x else ltb_int x (pos 0))
      ≡ true
    → (if eq_int y (pos 0) then later' else if descending then is_positive y else ltb_int y (pos 0))
      ≡ false
step-asymmetric x y descending later later' (inl (e, e')) rest h = rw e' (rest (rw e at h))
step-asymmetric x y true later later' (inr (inl (e, e'))) rest h = rw e' refl
step-asymmetric x y false later later' (inr (inl (e, e'))) rest h = cc (rw e at h)
step-asymmetric x y true later later' (inr (inr (e, e'))) rest h = cc (rw e at h)
step-asymmetric x y false later later' (inr (inr (e, e'))) rest h = rw e' refl

column-asymmetric :
    (fp : FloatOps) (o : Option ℕ) (a b : Row) (descending later later' : Bool)
    → ((i : ℕ) → AreOrdered fp (get_or a i null_value) (get_or b i null_value))
    → (later ≡ true → later' ≡ false)
    → elim o [
      | none ↦ later
      | some i ↦
          let cmp = compare_values fp (get_or a i null_value) (get_or b i null_value) in
          if eq_int cmp (pos 0)
          then later
          else if descending
          then is_positive cmp
          else ltb_int cmp (pos 0)
    ]
      ≡ true
    → elim o [
      | none ↦ later'
      | some i ↦
          let cmp = compare_values fp (get_or b i null_value) (get_or a i null_value) in
          if eq_int cmp (pos 0)
          then later'
          else if descending
          then is_positive cmp
          else ltb_int cmp (pos 0)
    ]
      ≡ false
column-asymmetric fp none a b descending later later' ordered rest h = rest h
column-asymmetric fp (some i) a b descending later later' ordered rest h =
    step-asymmetric _ _ descending later later' (compare_values-Opposite fp _ _ (ordered i)) rest h

module _ (num : Numerics) (aliases : AliasMap) (schema : Schema) where
  -- The comparison handed to `std::sort` does not put each of two rows before the other, as
  -- `std::sort` requires, where the rows' values are ordered column by column.
  pub row_before-asymmetric :
      (items : List OrderByItem) (a b : Row)
      → ((i : ℕ) → AreOrdered num.tests (get_or a i null_value) (get_or b i null_value))
      → row_before num aliases schema items a b ≡ true
      → row_before num aliases schema items b a ≡ false
  unfolding row_before
  row_before-asymmetric [] a b ordered h = cc
  row_before-asymmetric (item ∷ items) a b ordered h =
      column-asymmetric num.tests _ a b item.descending _ _ ordered
        (row_before-asymmetric items a b ordered) h
