-- ===== src/Storage/Lru/Order.antt =====
-- What `Unpin`, `Access`, `Evict` and `Size` of src/storage/buffer/lru_replacer.cpp do to the order
-- of eviction.
use mathlib.Core.Option.{none, some}
use seeddb.Base.{
  true, false, ℕ, ◌+◌, List, [], ◌∷◌, ◌++◌, ◌≡◌, arith, if◌then◌else◌, length, eq-cases, leb, not,
  refl, ◌∙◌, inl, ◌⊎◌, Bool-cases, inr, ap, sym, ≡→==_true, ◌<◌, ◌≤◌,
}
use seeddb.Storage.Lru.{
  LruReplacer, contains, remove, dec_size, insert_old, insert_young, rebalance, unlink, unpin,
  access, make, ℤ,
}
use seeddb.Storage.Lru.Laws.{
  IsValid, order, mark, Distinct, Distinct-left, Distinct-right, contains-append, contains-remove,
  Distinct-remove, remove-append_left, remove-append_right, length-remove,
}
use seeddb.Storage.Lru.Rebalance.{rebalance_lem}

Distinct-insert :
    (xs ys : List ℕ) (f : ℕ)
    → Distinct (xs ++ ys)
    → contains (xs ++ ys) f ≡ false
    → Distinct (xs ++ f ∷ ys)
unfolding contains
Distinct-insert [] ys f d new = (new, d)
Distinct-insert (x ∷ xs) ys f (fresh, d) new = (
  ground (arith, contains-append xs ys x, contains-append xs (f ∷ ys) x),
  Distinct-insert xs ys f d (ground arith),
)

pub Distinct-split_last :
    (xs : List ℕ) (f : ℕ) → Distinct (xs ++ f ∷ []) → Distinct xs × (contains xs f ≡ false)
unfolding contains
Distinct-split_last [] f d = (tt, refl)
Distinct-split_last (x ∷ xs) f (new, d) =
    let (rest, apart) = Distinct-split_last xs f d in
    (
      (ground (arith, contains-append xs (f ∷ []) x), rest),
      ground (arith, contains-append xs (f ∷ []) x),
    )

pub node_of_contains :
    (s : LruReplacer) (f : ℕ)
    → IsValid s
    → contains (order s) f ≡ true
    → s.nodes f ≡ some (not (contains s.young f))
node_of_contains s f v h = v.marked f ∙ ground (arith, contains-append s.young s.old f)

pub node_of_missing :
    (s : LruReplacer) (f : ℕ) → IsValid s → contains (order s) f ≡ false → s.nodes f ≡ none
node_of_missing s f v h = v.marked f ∙ ground (arith, contains-append s.young s.old f)

-- A frame that is put behind the midpoint.
inserted : ℕ → LruReplacer → LruReplacer
inserted f s = record (insert_old f s) { old_size = s.old_size + 1 }

inserted-IsValid :
    (s : LruReplacer) (f : ℕ) → IsValid s → contains (order s) f ≡ false → IsValid (inserted f s)
unfolding inserted contains
inserted-IsValid s f v new = record {
  young_count = v.young_count;
  old_count = let c = v.old_count in omega arith;
  distinct = Distinct-insert s.young s.old f v.distinct new;
  marked = λ g. elim (eq-cases f g) [
    | inl (same, e) ↦ rw (← same) (ground (arith, contains-append s.young s.old f))
    | inr (other, e) ↦ rw (e, v.marked g) (ground arith)
  ];
}

abbrev pub UnpinOutcome : LruReplacer → ℕ → Type 0
UnpinOutcome s f =
    ((contains (order s) f ≡ false)
      × IsValid (unpin f s)
      × (order (unpin f s) ≡ s.young ++ f ∷ s.old)
      × ((unpin f s).young ≡ (if leb s.target_old_size s.old_size then [] else s.young)))
    ⊎ ((contains (order s) f ≡ true) × (unpin f s ≡ s))

-- On a consistent list, `Unpin` of a frame that has no node puts it at the midpoint: behind every
-- young frame and before every old one. The list stays consistent; if the old part is then over its
-- target no frame is young, and otherwise the young part is as before. `Unpin` of a frame that has a
-- node changes nothing.
pub unpin_lem : (s : LruReplacer) (f : ℕ) → IsValid s → UnpinOutcome s f
unfolding unpin inserted
unpin_lem s f v = elim (Bool-cases (contains (order s) f)) [
  | inr new ↦
      let (valid, same, split) = rebalance_lem (inserted f s) (inserted-IsValid s f v new) in
      rw (node_of_missing s f v new, unpin) (inl (new, valid, same, part split))
  | inl old ↦ inr (old, rw (node_of_contains s f v old, unpin) refl)
]
  where
    part :
        ((s.target_old_size < s.old_size + 1) × ((rebalance (inserted f s)).young ≡ []))
          ⊎ ((s.old_size + 1 ≤ s.target_old_size) × (rebalance (inserted f s) ≡ inserted f s))
        → (rebalance (inserted f s)).young
          ≡ (if leb s.target_old_size s.old_size then [] else s.young)
    part (inl (lt, e)) = e ∙ ground arith
    part (inr (le, e)) = ap (λ (t : LruReplacer). t.young) e ∙ ground arith

-- A frame taken out of its part.
unfoldable pub unlinked : ℕ → LruReplacer → LruReplacer
unlinked f s =
    if contains s.young f
    then record s { young = remove s.young f }
    else record s { old = remove s.old f }

pub unlink-unlinked :
    (s : LruReplacer) (f : ℕ) → contains (order s) f ≡ true → unlink f s ≡ some (unlinked f s)
unfolding unlink unlinked
unlink-unlinked s f h = ground (arith, contains-append s.young s.old f)

pub unlinked-order : (s : LruReplacer) (f : ℕ) → order (unlinked f s) ≡ remove (order s) f
unfolding unlinked
unlinked-order s f = elim (Bool-cases (contains s.young f)) [
  | inl h ↦ rw h (sym (remove-append_left s.young s.old f h))
  | inr h ↦ rw h (sym (remove-append_right s.young s.old f h))
]

-- The list before `rebalance` in `Access`.
promoted : ℕ → LruReplacer → LruReplacer
promoted f s =
    if contains s.young f
    then insert_young f (unlinked f s)
    else record (insert_young f (record (unlinked f s) { old_size = dec_size s.old_size })) {
      young_size = s.young_size + 1;
    }

promoted-order : (s : LruReplacer) (f : ℕ) → order (promoted f s) ≡ f ∷ remove (order s) f
unfolding promoted
promoted-order s f = elim (Bool-cases (contains s.young f)) [
  | inl h ↦ rw h (ap (◌∷◌ f) (unlinked-order s f))
  | inr h ↦ rw h (ap (◌∷◌ f) (unlinked-order s f))
]

promoted-marked :
    (s : LruReplacer) (f g : ℕ)
    → IsValid s
    → contains (order s) f ≡ true
    → (promoted f s).nodes g ≡ mark (promoted f s).young (promoted f s).old g
unfolding promoted unlinked contains
promoted-marked s f g v h = elim (Bool-cases (contains s.young f)) [
  | inl young ↦ rw young (
      ground
        (arith, v.marked g, contains-remove s.young f g (Distinct-left s.young s.old v.distinct)))
  | inr old ↦ rw old (
      ground
        (arith, v.marked g, contains-remove s.old f g (Distinct-right s.young s.old v.distinct)))
]

promoted-counts :
    (s : LruReplacer) (f : ℕ)
    → IsValid s
    → contains (order s) f ≡ true
    → ((promoted f s).young_size ≡ length (promoted f s).young)
      × ((promoted f s).old_size ≡ length (promoted f s).old)
unfolding promoted unlinked
promoted-counts s f v h = elim (Bool-cases (contains s.young f)) [
  | inl young ↦
      let a = v.young_count in rw young (omega (arith, length-remove s.young f young), v.old_count)
  | inr old ↦
      let a = v.young_count in
      let b = v.old_count in
      let there : contains s.old f ≡ true = ground (arith, contains-append s.young s.old f) in
      rw old (omega arith, ground (arith, length-remove s.old f there))
]

promoted-IsValid :
    (s : LruReplacer) (f : ℕ) → IsValid s → contains (order s) f ≡ true → IsValid (promoted f s)
promoted-IsValid s f v h = record {
  young_count = (promoted-counts s f v h).0;
  old_count = (promoted-counts s f v h).1;
  distinct = rw promoted-order (
    rw (contains-remove (order s) f f v.distinct) (rw (≡→==_true f f refl) refl),
    Distinct-remove (order s) f v.distinct,
  );
  marked = λ g. promoted-marked s f g v h;
}

abbrev pub AccessOutcome : LruReplacer → ℕ → Type 0
AccessOutcome s f =
    ((contains (order s) f ≡ true)
      × (t : LruReplacer) × (access f s ≡ some t)
      × IsValid t
      × (order t ≡ f ∷ remove (order s) f))
    ⊎ ((contains (order s) f ≡ false) × (access f s ≡ some s))

-- On a consistent list, `Access` of a frame of the list makes it the last to be evicted, leaves the
-- order of the others, and keeps the list consistent. A frame that has no node is ignored. Neither
-- meets a null link.
pub access_lem : (s : LruReplacer) (f : ℕ) → IsValid s → AccessOutcome s f
unfolding access promoted unlinked
access_lem s f v = elim (Bool-cases (contains (order s) f)) [
  | inr new ↦ inr (new, rw (node_of_missing s f v new, access) refl)
  | inl there ↦
      let valid = promoted-IsValid s f v there in
      let node = node_of_contains s f v there in
      let out = unlink-unlinked s f there in
      elim (Bool-cases (contains s.young f)) [
        | inl young ↦
            inl (there, promoted f s, rw (node, out, young, access) refl, valid, promoted-order s f)
        | inr old ↦
            let (kept, same, _) = rebalance_lem (promoted f s) valid in
            inl (
              there,
              rebalance (promoted f s),
              rw (node, out, old, access) refl,
              kept,
              same ∙ promoted-order s f,
            )
      ]
]

-- The empty list is consistent, and `Unpin` keeps it so.
pub make-IsValid : (pool_size : ℕ) (old_pct : ℤ) → IsValid (make pool_size old_pct)
unfolding make contains
make-IsValid n pct = record {
  young_count = refl;
  old_count = refl;
  distinct = tt;
  marked = λ f. refl;
}

pub unpin-IsValid : (s : LruReplacer) (f : ℕ) → IsValid s → IsValid (unpin f s)
unpin-IsValid s f v = elim (unpin_lem s f v) [
  | inl (_, valid, _, _) ↦ valid
  | inr (_, same) ↦ rw same v
]

-- The first frame of a list.
pub unpin-make :
    (pool_size : ℕ) (old_pct : ℤ) (f : ℕ) → order (unpin f (make pool_size old_pct)) ≡ f ∷ []
unfolding make contains
unpin-make n pct f = elim (unpin_lem (make n pct) f (make-IsValid n pct)) [
  | inl (_, _, e, _) ↦ e
  | inr (h, _) ↦ cc
]
