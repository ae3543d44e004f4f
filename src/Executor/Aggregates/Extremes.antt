-- ===== src/Executor/Aggregates/Extremes.antt =====
-- COUNT, MIN and MAX of src/executor/aggregate.h over the values of a column.
use seeddb.Base.{
  Bool, true, false, List, [], ◌∷◌, if◌then◌else◌, ◌≡◌, ◌⊎◌, refl, sym, subst, arith, Bool-cases,
  inl, inr, All, Any, Bytes, not, ◌∙◌, ap,
}
use seeddb.Common.LogicalType.{
  LogicalTypeId, sql_null, integer, bigint, float, double, varchar, boolean, unknown,
}
use seeddb.Common.Numerics.{Numerics}
use seeddb.Common.Value.{null_value}
use seeddb.Executor.Aggregates.{Accumulator, min_accumulator, max_accumulator, accumulate, finalize}
use seeddb.Common.Value.{
  Value, FloatOps, is_null, is_null_type, less_than, less_at, str_less, null_value,
}

str_less_trans : (a b c : Bytes) → str_less a b ≡ true → str_less b c ≡ true → str_less a c ≡ true
unfolding str_less
str_less_trans a b [] h k = cc
str_less_trans [] [] (z ∷ c) h k = cc
str_less_trans [] (y ∷ b) (z ∷ c) h k = refl
str_less_trans (x ∷ a) [] (z ∷ c) h k = cc
str_less_trans (x ∷ a) (y ∷ b) (z ∷ c) h k = ground (arith, str_less_trans a b c)

-- The types that are ordered without floating-point numbers.
abbrev pub IsExact : LogicalTypeId → Type 0
IsExact integer = Unit
IsExact bigint = Unit
IsExact varchar = Unit
IsExact boolean = Unit
IsExact _ = ⊥

less_at_trans :
    (fp : FloatOps) (t : LogicalTypeId) (a b c : Value)
    → IsExact t
    → less_at fp t a b ≡ true
    → less_at fp t b c ≡ true
    → less_at fp t a c ≡ true
unfolding less_at
less_at_trans fp integer a b c e h k = ground arith
less_at_trans fp bigint a b c e h k = ground arith
less_at_trans fp varchar a b c e h k = str_less_trans a.str b.str c.str h k
less_at_trans fp boolean a b c e h k = ground arith
less_at_trans fp sql_null a b c e h k = absurd e
less_at_trans fp float a b c e h k = absurd e
less_at_trans fp double a b c e h k = absurd e
less_at_trans fp (unknown n) a b c e h k = absurd e

str_less-irreflexive : (a : Bytes) → str_less a a ≡ false
unfolding str_less
str_less-irreflexive [] = refl
str_less-irreflexive (x ∷ a) = ground (arith, str_less-irreflexive a)

less_at-irreflexive :
    (fp : FloatOps) (t : LogicalTypeId) (a : Value) → IsExact t → less_at fp t a a ≡ false
unfolding less_at
less_at-irreflexive fp integer a e = ground arith
less_at-irreflexive fp bigint a e = ground arith
less_at-irreflexive fp varchar a e = str_less-irreflexive a.str
less_at-irreflexive fp boolean a e = ground arith
less_at-irreflexive fp sql_null a e = absurd e
less_at-irreflexive fp float a e = absurd e
less_at-irreflexive fp double a e = absurd e
less_at-irreflexive fp (unknown n) a e = absurd e

exact_is_null : (t : LogicalTypeId) → IsExact t → is_null_type t ≡ false
exact_is_null integer e = refl
exact_is_null bigint e = refl
exact_is_null varchar e = refl
exact_is_null boolean e = refl
exact_is_null sql_null e = absurd e
exact_is_null float e = absurd e
exact_is_null double e = absurd e
exact_is_null (unknown n) e = absurd e

less_than-at :
    (fp : FloatOps) (t : LogicalTypeId) (a b : Value)
    → IsExact t
    → a.type ≡ t
    → b.type ≡ t
    → less_than fp a b ≡ less_at fp t a b
unfolding less_than
less_than-at fp t a b e ha hb = ground (arith, exact_is_null t e)

-- The loop of MIN and of MAX behind the first value.
best : (Value → Value → Bool) → Value → List Value → Value
best lt m [] = m
best lt m (v ∷ vs) = best lt (if is_null v then m else if lt v m then v else m) vs

-- Of no value that is not NULL the test says that it comes before `m`.
abbrev pub NoneBefore : (Value → Value → Bool) → Value → List Value → Type 0
NoneBefore lt m = All (λ v. (is_null v ≡ true) ⊎ (lt v m ≡ false))

module _ (P : Value → Type 0) (lt : Value → Value → Bool) (irr : (a : Value) → P a → lt a a ≡ false)
    (trans : (a b c : Value)
      → P a
      → P b
      → P c
      → lt a b ≡ true
      → lt b c ≡ true
      → lt a c ≡ true) where
  abbrev AtMost : Value → Value → Type 0
  AtMost b m = (b ≡ m) ⊎ (lt b m ≡ true)

  abbrev Best : Value → Value → List Value → Type 0
  Best b m vs = P b × AtMost b m × ((b ≡ m) ⊎ Any (λ v. v ≡ b) vs) × NoneBefore lt b vs

  not_before : (b m v : Value) → P b → P m → P v → AtMost b m → lt v m ≡ false → lt v b ≡ false
  not_before b m v hb hm hv (inl e) h = subst (λ x. lt v x ≡ false) (sym e) h
  not_before b m v hb hm hv (inr below) h = elim (Bool-cases (lt v b)) [
    | inl k ↦ cc (trans v b m hv hb hm k below)
    | inr k ↦ k
  ]

  AtMost-trans : (b v m : Value) → P b → P v → P m → AtMost b v → lt v m ≡ true → AtMost b m
  AtMost-trans b v m hb hv hm (inl e) h = inr (subst (λ x. lt x m ≡ true) (sym e) h)
  AtMost-trans b v m hb hv hm (inr below) h = inr (trans b v m hb hv hm below h)

  weaken :
      (b m v : Value) (vs : List Value)
      → (b ≡ m) ⊎ Any (λ x. x ≡ b) vs
      → (b ≡ m) ⊎ Any (λ x. x ≡ b) (v ∷ vs)
  weaken b m v vs (inl e) = inl e
  weaken b m v vs (inr k) = inr (inr k)

  take_new :
      (b v : Value) (vs : List Value) → (b ≡ v) ⊎ Any (λ x. x ≡ b) vs → Any (λ x. x ≡ b) (v ∷ vs)
  take_new b v vs (inl e) = inl (sym e)
  take_new b v vs (inr k) = inr k

  best-Best :
      (m b : Value) (vs : List Value)
      → P m
      → All (λ v. (is_null v ≡ true) ⊎ P v) vs
      → best lt m vs ≡ b
      → Best b m vs
  unfolding best
  best-Best m b [] hm h e = (subst P e hm, inl (sym e), inl (sym e), tt)
  best-Best m b (v ∷ vs) hm (inl gone, h) e =
      let (hb, at, from, rest) = best-Best m b vs hm h (rw gone at e) in
      (hb, at, weaken b m v vs from, (inl gone, rest))
  best-Best m b (v ∷ vs) hm (inr hv, h) e = elim (Bool-cases (is_null v)) [
    | inl gone ↦
        let (hb, at, from, rest) = best-Best m b vs hm h (rw gone at e) in
        (hb, at, weaken b m v vs from, (inl gone, rest))
    | inr there ↦ elim (Bool-cases (lt v m)) [
      | inl less ↦
          let (hb, at, from, rest) = best-Best v b vs hv h (rw (there, less) at e) in
          (
            hb,
            AtMost-trans b v m hb hv hm at less,
            inr (take_new b v vs from),
            (inr (not_before b v v hb hv hv at (irr v hv)), rest),
          )
      | inr more ↦
          let (hb, at, from, rest) = best-Best m b vs hm h (rw (there, more) at e) in
          (hb, at, weaken b m v vs from, (inr (not_before b m v hb hm hv at more), rest))
    ]
  ]

abbrev pub IsNullOr : (Value → Type 0) → Value → Type 0
IsNullOr P v = (is_null v ≡ true) ⊎ P v

-- The column is NULL throughout and so is the result, or the result is one of its values that are not
-- NULL, and none of these comes before it.
abbrev pub IsExtreme : (Value → Type 0) → (Value → Value → Bool) → List Value → Value → Type 0
IsExtreme P lt vs r =
    (All (λ v. is_null v ≡ true) vs × (r ≡ null_value))
    ⊎ (P r × Any (λ v. v ≡ r) vs × NoneBefore lt r vs)

module _ (num : Numerics) where
  -- The accumulator after the values of a column, in order.
  abbrev pub feed : Accumulator → List Value → Accumulator
  feed acc [] = acc
  feed acc (v ∷ vs) = feed (accumulate num acc v) vs

  module _ (P : Value → Type 0) (lt : Value → Value → Bool)
      (irr : (a : Value) → P a → lt a a ≡ false)
      (trans : (a b c : Value) → P a → P b → P c → lt a b ≡ true → lt b c ≡ true → lt a c ≡ true)
      (mk : Value → Bool → Accumulator)
      (start : (m v : Value)
        → accumulate num (mk m false) v ≡ (if is_null v then mk m false else mk v true))
      (step : (m v : Value)
        → accumulate num (mk m true) v ≡ mk (if is_null v then m else if lt v m then v else m) true)
      (end : (m : Value) (has : Bool)
        → finalize num (mk m has) ≡ (if not has then null_value else m)) where
    feed-best : (m : Value) (vs : List Value) → feed (mk m true) vs ≡ mk (best lt m vs) true
    unfolding best
    feed-best m [] = refl
    feed-best m (v ∷ vs) =
        ap (λ acc. feed acc vs) (step m v)
        ∙ feed-best (if is_null v then m else if lt v m then v else m) vs

    feed-IsExtreme :
        (vs : List Value)
        → All (IsNullOr P) vs
        → IsExtreme P lt vs (finalize num (feed (mk null_value false) vs))
    feed-IsExtreme [] h = inl (tt, end null_value false)
    feed-IsExtreme (v ∷ vs) (hv, h) = elim (Bool-cases (is_null v)) [
      | inl gone ↦
          let same : accumulate num (mk null_value false) v ≡ mk null_value false =
            start null_value v ∙ rw gone refl in
          subst (λ acc. IsExtreme P lt (v ∷ vs) (finalize num (feed acc vs))) (sym same)
            (extend gone _ (feed-IsExtreme vs h))
      | inr there ↦
          let first : finalize num (feed (accumulate num (mk null_value false) v) vs)
              ≡ best lt v vs =
            ap (λ acc. finalize num (feed acc vs)) (start null_value v ∙ rw there refl)
            ∙ ap (finalize num) (feed-best v vs)
            ∙ end (best lt v vs) true in
          subst (IsExtreme P lt (v ∷ vs)) (sym first) (inr (chosen there (present hv there)))
    ]
      where
        present : IsNullOr P v → is_null v ≡ false → P v
        present (inl e) there = cc
        present (inr p) there = p

        extend : is_null v ≡ true → (r : Value) → IsExtreme P lt vs r → IsExtreme P lt (v ∷ vs) r
        extend gone r (inl (all, e)) = inl ((gone, all), e)
        extend gone r (inr (p, found, rest)) = inr (p, inr found, (inl gone, rest))

        chosen :
            is_null v ≡ false
            → P v
            → P (best lt v vs)
              × Any (λ x. x ≡ best lt v vs) (v ∷ vs)
              × NoneBefore lt (best lt v vs) (v ∷ vs)
        chosen there p =
            let (hb, at, from, rest) = best-Best P lt irr trans v _ vs p h refl in
            (
              hb,
              take_new P lt irr trans _ v vs from,
              (inr (not_before P lt irr trans _ v v hb p p at (irr v p)), rest),
            )

  abbrev pub ExtremesOutcome : LogicalTypeId → List Value → Type 0
  ExtremesOutcome t vs =
      IsExtreme (λ v. v.type ≡ t) (less_than num.tests) vs
        (finalize num (feed (min_accumulator null_value false) vs))
      × IsExtreme (λ v. v.type ≡ t) (λ a b. less_than num.tests b a) vs
          (finalize num (feed (max_accumulator null_value false) vs))

  -- Over a column whose values are NULL or of one type, INTEGER, BIGINT, VARCHAR or BOOLEAN, MIN and
  -- MAX are NULL if all values are, and otherwise values of the column that are not NULL: no such value
  -- is less than the minimum, and the maximum is less than none.
  pub extremes-IsExtreme :
      (t : LogicalTypeId) (vs : List Value)
      → IsExact t
      → All (IsNullOr (λ v. v.type ≡ t)) vs
      → ExtremesOutcome t vs
  unfolding accumulate finalize
  extremes-IsExtreme t vs exact h = (
    feed-IsExtreme (λ v. v.type ≡ t) (less_than num.tests) irr trans min_accumulator
        (λ m v. ground arith) (λ m v. ground arith) (λ m has. refl) vs h,
    feed-IsExtreme (λ v. v.type ≡ t) (λ a b. less_than num.tests b a) irr
        (λ a b c ha hb hc h k. trans c b a hc hb ha k h) max_accumulator (λ m v. ground arith)
        (λ m v. ground arith) (λ m has. refl) vs h,
  )
    where
      irr : (a : Value) → a.type ≡ t → less_than num.tests a a ≡ false
      irr a ha = less_than-at num.tests t a a exact ha ha ∙ less_at-irreflexive num.tests t a exact

      trans :
          (a b c : Value)
          → a.type ≡ t
          → b.type ≡ t
          → c.type ≡ t
          → less_than num.tests a b ≡ true
          → less_than num.tests b c ≡ true
          → less_than num.tests a c ≡ true
      trans a b c ha hb hc h k =
          less_than-at num.tests t a c exact ha hc
          ∙ less_at_trans num.tests t a b c exact
              (sym (less_than-at num.tests t a b exact ha hb) ∙ h)
              (sym (less_than-at num.tests t b c exact hb hc) ∙ k)
