-- ===== src/Storage/Lru/Rebalance.antt =====
-- `LruReplacer::rebalance` of src/storage/buffer/lru_replacer.cpp.
use seeddb.Base.{
  true, false, ℕ, zero, suc, List, [], ◌∷◌, ◌++◌, ◌≡◌, arith, eq-cases, sym, append_assoc, inl, inr,
  ◌∙◌, Bool-cases, ap, false, ◌<◌, Bool, length, ltb, refl, ◌⊎◌, length-append, ◌||◌, ◌≤◌,
  le→ltb_false, lt→ltb, ≡→==_true, le_or_lt, ◌==◌,
}
use seeddb.Storage.Lru.{LruReplacer, contains, demote, rebalance_loop, rebalance}
use seeddb.Storage.Lru.Laws.{
  IsValid, order, mark, Distinct, Distinct-left, Distinct-apart, contains-append, split_last-cases,
}

Distinct-last : (xs : List ℕ) (f : ℕ) → Distinct (xs ++ f ∷ []) → contains xs f ≡ false
unfolding contains
Distinct-last xs f d = elim (Bool-cases (contains xs f)) [
  | inl h ↦ absurd (cc (Distinct-apart xs (f ∷ []) f d h, ≡→==_true f f refl, false_or (f == f)))
  | inr h ↦ h
]
  where
    false_or : (b : Bool) → (b || false) ≡ b
    false_or true = refl
    false_or false = refl

module _ (s : LruReplacer) (v : IsValid s) (rest : List ℕ) (f : ℕ)
    (split : s.young ≡ rest ++ f ∷ []) where
  demote-order : order (demote s rest f) ≡ order s
  demote-order = rw split (sym (append_assoc rest (f ∷ []) s.old))

  demote-marked : (g : ℕ) → (demote s rest f).nodes g ≡ mark rest (f ∷ s.old) g
  unfolding contains
  demote-marked g =
      let whole : Distinct ((rest ++ f ∷ []) ++ s.old) = rw (← split) v.distinct in
      elim (eq-cases f g) [
        | inl (same, e) ↦ rw e (
            rw (← same)
              (rw (Distinct-last rest f (Distinct-left (rest ++ f ∷ []) s.old whole)) refl))
        | inr (other, e) ↦ rw e (v.marked g ∙ rw split (rw contains-append (rw e (ground arith))))
      ]

  demote-IsValid : IsValid (demote s rest f)
  demote-IsValid = record {
    young_count =
        let c = v.young_count in ground (arith, ap length split, length-append rest (f ∷ []));
    old_count = let o = v.old_count in omega arith;
    distinct = rw demote-order v.distinct;
    marked = demote-marked;
  }

-- The loop, on the counter of young nodes. The order of eviction never changes.
pub rebalance_loop-order :
    (n : ℕ) (s : LruReplacer)
    → s.young_size ≡ n
    → IsValid s
    → (order (rebalance_loop n s) ≡ order s) × IsValid (rebalance_loop n s)
unfolding rebalance_loop
rebalance_loop-order zero s e v = (refl, v)
rebalance_loop-order (suc n) s e v = elim (Bool-cases (ltb s.target_old_size s.old_size)) [
  | inr enough ↦ rw (enough, rebalance_loop) (refl, v)
  | inl over ↦ elim (split_last-cases s.young) [
    | inl (_, h) ↦ rw (over, h, rebalance_loop) (refl, v)
    | inr (rest, f, split, h) ↦
        let next =
          rebalance_loop-order n (demote s rest f) (ground arith)
            (demote-IsValid s v rest f split) in
        rw (over, h, rebalance_loop) (next.0 ∙ demote-order s v rest f split, next.1)
  ]
]

-- Once the old part is over its target, the loop goes on until no node is young: demoting lowers
-- the young part, and never the old one.
rebalance_loop-split :
    (n : ℕ) (s : LruReplacer)
    → s.young_size ≡ n
    → IsValid s
    → s.target_old_size < s.old_size
    → (rebalance_loop n s).young ≡ []
unfolding rebalance_loop
rebalance_loop-split zero s e v over = elim (split_last-cases s.young) [
  | inl (h, _) ↦ h
  | inr (rest, f, split, _) ↦
      let c = v.young_count in absurd (omega (arith, ap length split, length-append rest (f ∷ [])))
]
rebalance_loop-split (suc n) s e v over = elim (split_last-cases s.young) [
  | inl (empty, h) ↦ rw (lt→ltb _ _ over, h, rebalance_loop) empty
  | inr (rest, f, split, h) ↦
      rw (lt→ltb _ _ over, h, rebalance_loop)
        (rebalance_loop-split n (demote s rest f) (ground arith) (demote-IsValid s v rest f split)
          (omega arith))
]

abbrev pub RebalanceOutcome : LruReplacer → Type 0
RebalanceOutcome s =
    IsValid (rebalance s)
    × (order (rebalance s) ≡ order s)
    × (((s.target_old_size < s.old_size) × ((rebalance s).young ≡ []))
        ⊎ ((s.old_size ≤ s.target_old_size) × (rebalance s ≡ s)))

-- `rebalance` on a consistent list keeps it consistent and keeps the order of eviction. If the old
-- part is over its target every node is old afterwards, and otherwise nothing changes.
pub rebalance_lem : (s : LruReplacer) → IsValid s → RebalanceOutcome s
unfolding rebalance
rebalance_lem s v =
    let (same, valid) = rebalance_loop-order s.young_size s refl v in
    (
      valid,
      same,
      elim (le_or_lt s.old_size s.target_old_size) [
        | inl le ↦ inr (le, rebalance_loop_stops s.young_size s le)
        | inr lt ↦ inl (lt, rebalance_loop-split s.young_size s refl v lt)
      ],
    )
  where
    rebalance_loop_stops :
        (n : ℕ) (t : LruReplacer) → t.old_size ≤ t.target_old_size → rebalance_loop n t ≡ t
    rebalance_loop_stops zero t le = unfold rebalance_loop in refl
    rebalance_loop_stops (suc n) t le =
        unfold rebalance_loop in rw (le→ltb_false _ _ le, rebalance_loop) refl
