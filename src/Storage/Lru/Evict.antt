-- ===== src/Storage/Lru/Evict.antt =====
-- What `Evict` and `Size` of src/storage/buffer/lru_replacer.cpp do to the order of eviction.
use seeddb.Base.{
  ℕ, List, [], ◌∷◌, ◌++◌, ◌≡◌, length, none, some, append_assoc, arith, ◌⊎◌, ap, inr, length-append,
  append-nil, eq-cases, sym, inl, refl, ◌∙◌, true, subst, drop, ≡→==_true,
}
use seeddb.Storage.Lru.{LruReplacer, contains, set_node, dec_size, evict, size, access, remove}
use seeddb.Storage.Lru.Laws.{
  IsValid, order, Distinct, contains-append, Distinct-left, split_last-cases, contains-remove,
}
use seeddb.Storage.Lru.Order.{Distinct-split_last, access_lem}

module _ (s : LruReplacer) (v : IsValid s) (rest : List ℕ) (f : ℕ) where
  old_evicted :
      s.old ≡ rest ++ f ∷ []
      → IsValid
          (record s { old = rest; old_size = dec_size s.old_size; nodes = set_node s.nodes f none })
  unfolding contains
  old_evicted split =
      let whole : Distinct ((s.young ++ rest) ++ f ∷ []) =
        rw append_assoc (rw (← split) v.distinct) in
      let (kept, gone) = Distinct-split_last (s.young ++ rest) f whole in
      let c = v.old_count in
      record {
        young_count = v.young_count;
        old_count = ground (arith, ap length split, length-append rest (f ∷ []));
        distinct = kept;
        marked = λ g. elim (eq-cases f g) [
          | inl (same, e) ↦ rw e (rw (← same) (ground (arith, contains-append s.young rest f)))
          | inr (other, e) ↦ rw e (v.marked g ∙ rw split (rw contains-append (rw e (ground arith))))
        ];
      }

  young_evicted :
      s.young ≡ rest ++ f ∷ []
      → s.old ≡ []
      → IsValid (record s {
        young = rest;
        young_size = dec_size s.young_size;
        nodes = set_node s.nodes f none;
      })
  unfolding contains
  young_evicted split empty =
      let whole : Distinct (rest ++ f ∷ []) =
        Distinct-left (rest ++ f ∷ []) s.old (rw (← split) v.distinct) in
      let (kept, gone) = Distinct-split_last rest f whole in
      let c = v.young_count in
      record {
        young_count = ground (arith, ap length split, length-append rest (f ∷ []));
        old_count = v.old_count;
        distinct = rw (empty, append-nil) kept;
        marked = λ g. elim (eq-cases f g) [
          | inl (same, e) ↦ rw e (rw (← same, empty) (rw gone refl))
          | inr (other, e) ↦ rw e (v.marked g ∙ rw split (rw contains-append (rw e (ground arith))))
        ];
      }

abbrev pub EvictOutcome : LruReplacer → Type 0
EvictOutcome s =
    ((xs : List ℕ) × (f : ℕ) × (t : LruReplacer) × (order s ≡ xs ++ f ∷ [])
      × (evict s ≡ some (f, t))
      × IsValid t
      × (order t ≡ xs))
    ⊎ ((order s ≡ []) × (evict s ≡ none))

-- On a consistent list, `Evict` takes the last frame of the order, and it fails only if there is
-- none. The list stays consistent, and the other frames keep their order.
pub evict_lem : (s : LruReplacer) → IsValid s → EvictOutcome s
unfolding evict
evict_lem s v = elim (split_last-cases s.old) [
  | inr (rest, f, split, e) ↦
      let whole : order s ≡ (s.young ++ rest) ++ f ∷ [] =
        rw split (sym (append_assoc s.young rest (f ∷ []))) in
      inl (s.young ++ rest, f, _, whole, rw (e, evict) refl, old_evicted s v rest f split, refl)
  | inl (empty, e) ↦ elim (split_last-cases s.young) [
    | inr (rest, f, split, e') ↦
        let whole : order s ≡ rest ++ f ∷ [] = rw (split, empty) (append-nil _) in
        inl (
          rest,
          f,
          _,
          whole,
          rw (e, e', evict) refl,
          young_evicted s v rest f split empty,
          rw empty (append-nil rest),
        )
    | inl (none_left, e') ↦ inr (rw (empty, none_left) refl, rw (e, e', evict) refl)
  ]
]

-- On a consistent list, `Size` is the number of frames that can be evicted.
pub size_lem : (s : LruReplacer) → IsValid s → size s ≡ length (order s)
unfolding size
size_lem s v =
    let a = v.young_count in let b = v.old_count in omega (arith, length-append s.young s.old)

-- An access answers, and no frame joins the list.
pub access_keeps :
    (s : LruReplacer) (f : ℕ)
    → IsValid s
    → (t : LruReplacer) × (access f s ≡ some t)
      × IsValid t
      × ((i : ℕ) → contains (order t) i ≡ true → contains (order s) i ≡ true)
unfolding contains
access_keeps s f v = elim (access_lem s f v) [
  | inr (_, e) ↦ (s, e, v, λ i h. h)
  | inl (there, t, e, valid, moved) ↦ (
    t,
    e,
    valid,
    λ i h. front (order s) f i v.distinct there (subst (λ xs. contains xs i ≡ true) moved h),
  )
]
  where
    front :
        (xs : List ℕ) (g i : ℕ)
        → Distinct xs
        → contains xs g ≡ true
        → contains (g ∷ remove xs g) i ≡ true
        → contains xs i ≡ true
    front xs g i d there h = elim (eq-cases g i) [
      | inl (e, _) ↦ ap (contains xs) (sym e) ∙ there
      | inr (_, miss) ↦ ground (arith, contains-remove xs g i d)
    ]

last_inj : (xs ys : List ℕ) (f g : ℕ) → xs ++ f ∷ [] ≡ ys ++ g ∷ [] → f ≡ g
last_inj [] [] f g h = cc
last_inj [] (y ∷ []) f g h = cc
last_inj [] (y ∷ z ∷ ys) f g h = cc
last_inj (x ∷ []) [] f g h = cc
last_inj (x ∷ z ∷ xs) [] f g h = cc
last_inj (x ∷ xs) (y ∷ ys) f g h = last_inj xs ys f g (ap (drop 1) h)

-- The last frame of the list is the victim.
pub evict_last :
    (s : LruReplacer) (xs : List ℕ) (f : ℕ)
    → IsValid s
    → order s ≡ xs ++ f ∷ []
    → (rest : LruReplacer) × (evict s ≡ some (f, rest))
evict_last s xs f v split = elim (evict_lem s v) [
  | inl (ys, g, t, split', e, _, _) ↦ (t, rw (last_inj xs ys f g (sym split ∙ split')) e)
  | inr (nothing, e) ↦ absurd (append_single xs f (sym split ∙ nothing))
]
  where
    append_single : (ys : List ℕ) (g : ℕ) → ¬ (ys ++ g ∷ [] ≡ [])
    append_single [] g h = cc
    append_single (y ∷ ys) g h = cc

-- The one frame of a list is its victim, also after an access.
pub access_only :
    (s : LruReplacer) (f : ℕ)
    → IsValid s
    → order s ≡ f ∷ []
    → (t : LruReplacer) × (access f s ≡ some t) × (rest : LruReplacer) × (evict t ≡ some (f, rest))
unfolding contains remove
access_only s f v only = elim (access_lem s f v) [
  | inr (new, e) ↦ let (rest, gone) = evict_last s [] f v only in (s, e, rest, gone)
  | inl (there, t, e, valid, moved) ↦
      let (rest, gone) = evict_last t [] f valid (moved ∙ rw (only, ≡→==_true f f refl) refl) in
      (t, e, rest, gone)
]
