-- ===== src/Executor/Rows/Distinct.antt =====
-- `Executor::applyDistinct` of src/executor/executor.cpp: which rows are kept.
use seeddb.Base.{
  true, false, List, [], ◌∷◌, ◌++◌, ◌≡◌, ◌⊎◌, inl, inr, refl, ◌∙◌, sym, subst, arith, Bool-cases,
  All, Any, Sublist, All-snoc, Any-append_left, Any-append_right, append-nil, append_assoc,
}
use seeddb.Common.Value.{FloatOps}
use seeddb.Storage.Schema.{Row}
use seeddb.Executor.Rows.{rows_equal, is_duplicate, distinct_loop, apply_distinct}

module _ (fp : FloatOps) where
  -- No row equals an earlier one.
  abbrev pub NoTwo : List Row → Type 0
  NoTwo [] = Unit
  NoTwo (u ∷ us) = All (λ v. rows_equal fp v u ≡ false) us × NoTwo us

  -- The row is there, or one that it equals.
  abbrev pub Covered : Row → List Row → Type 0
  Covered r = Any (λ u. (u ≡ r) ⊎ (rows_equal fp r u ≡ true))

  not_duplicate :
      (r u : Row) (us : List Row)
      → is_duplicate fp r (u ∷ us) ≡ false
      → (rows_equal fp r u ≡ false) × (is_duplicate fp r us ≡ false)
  unfolding is_duplicate
  not_duplicate r u us h = ground arith

  NoTwo-snoc :
      (us : List Row) (r : Row) → NoTwo us → is_duplicate fp r us ≡ false → NoTwo (us ++ r ∷ [])
  NoTwo-snoc [] r h k = (tt, tt)
  NoTwo-snoc (u ∷ us) r (apart, h) k =
      let (other, k') = not_duplicate r u us k in
      (All-snoc (λ v. rows_equal fp v u ≡ false) us r apart other, NoTwo-snoc us r h k')

  duplicate-Covered : (r : Row) (us : List Row) → is_duplicate fp r us ≡ true → Covered r us
  unfolding is_duplicate
  duplicate-Covered r [] h = cc
  duplicate-Covered r (u ∷ us) h = elim (Bool-cases (rows_equal fp r u)) [
    | inl e ↦ inl (inr e)
    | inr e ↦ inr (duplicate-Covered r us (rw e at h))
  ]

  distinct_loop-NoTwo : (us rows : List Row) → NoTwo us → NoTwo (distinct_loop fp us rows)
  unfolding distinct_loop
  distinct_loop-NoTwo us [] h = h
  distinct_loop-NoTwo us (r ∷ rs) h = elim (Bool-cases (is_duplicate fp r us)) [
    | inl e ↦ rw e (distinct_loop-NoTwo us rs h)
    | inr e ↦ rw e (distinct_loop-NoTwo (us ++ r ∷ []) rs (NoTwo-snoc us r h e))
  ]

  -- The rows kept so far stay in front, and the rest is taken from the rows to come.
  distinct_loop-Sublist :
      (us rows : List Row)
      → (new : List Row) × (distinct_loop fp us rows ≡ us ++ new) × Sublist new rows
  unfolding distinct_loop
  distinct_loop-Sublist us [] = ([], sym (append-nil us), Sublist.nil)
  distinct_loop-Sublist us (r ∷ rs) = elim (Bool-cases (is_duplicate fp r us)) [
    | inl e ↦ let (new, e', sub) = distinct_loop-Sublist us rs in (new, rw e e', Sublist.skip r sub)
    | inr e ↦
        let (new, e', sub) = distinct_loop-Sublist (us ++ r ∷ []) rs in
        (r ∷ new, rw e (e' ∙ append_assoc us (r ∷ []) new), Sublist.keep r sub)
  ]

  Covered-distinct_loop :
      (r : Row) (us rows : List Row) → Covered r us → Covered r (distinct_loop fp us rows)
  Covered-distinct_loop r us rows h =
      let (new, e, _) = distinct_loop-Sublist us rows in
      subst (Covered r) (sym e) (Any-append_left _ us new h)

  distinct_loop-Covered :
      (us rows out : List Row) → distinct_loop fp us rows ≡ out → All (λ r. Covered r out) rows
  unfolding distinct_loop
  distinct_loop-Covered us [] out e = tt
  distinct_loop-Covered us (r ∷ rs) out e = elim (Bool-cases (is_duplicate fp r us)) [
    | inl h ↦
        let e' : distinct_loop fp us rs ≡ out = rw h at e in
        (
          subst (Covered r) e' (Covered-distinct_loop r us rs (duplicate-Covered r us h)),
          distinct_loop-Covered us rs out e',
        )
    | inr h ↦
        let e' : distinct_loop fp (us ++ r ∷ []) rs ≡ out = rw h at e in
        let added : Covered r (us ++ r ∷ []) = Any-append_right _ us (r ∷ []) (inl (inl refl)) in
        (
          subst (Covered r) e' (Covered-distinct_loop r (us ++ r ∷ []) rs added),
          distinct_loop-Covered (us ++ r ∷ []) rs out e',
        )
  ]

  abbrev pub DistinctOutcome : List Row → Type 0
  DistinctOutcome rows =
      Sublist (apply_distinct fp true rows) rows
      × NoTwo (apply_distinct fp true rows)
      × All (λ r. Covered r (apply_distinct fp true rows)) rows
      × (apply_distinct fp false rows ≡ rows)

  -- DISTINCT keeps some of the rows, in their order; no kept row equals an earlier one, and every row
  -- is kept or equals a kept one. Without DISTINCT all rows stay.
  pub apply_distinct_lem : (rows : List Row) → DistinctOutcome rows
  unfolding apply_distinct
  apply_distinct_lem rows =
      let (new, e, sub) = distinct_loop-Sublist [] rows in
      (
        subst (λ out. Sublist out rows) (sym e) sub,
        distinct_loop-NoTwo [] rows tt,
        distinct_loop-Covered [] rows _ refl,
        refl,
      )
