-- ===== src/Storage/Lru/Stuck.antt =====
-- A frame of src/storage/buffer/lru_replacer.cpp that has a node in `nodes_` and is not in the list: no
-- operation puts it back.
use seeddb.Base.{
  Held, Held-map, true, false, ℕ, zero, suc, ◌+◌, List, [], ◌∷◌, ◌++◌, ◌≡◌, arith, eq-cases, sym,
  inl, inr, ◌∙◌, Bool-cases, Option-cases, ap, Bool, refl, ◌==◌, some, none, ltb, if◌then◌else◌,
  subst,
}
use seeddb.Storage.Lru.{
  LruReplacer, contains, remove, demote, rebalance_loop, rebalance, unlink, pin, unpin, access,
  evict, insert_young, insert_old, dec_size,
}
use seeddb.Storage.Lru.Laws.{contains-append, split_last-cases}

pub record IsStuck (f : ℕ) (s : LruReplacer) : Type 0 where
  pub in_old : Bool
  pub node : s.nodes f ≡ some in_old
  pub out_young : contains s.young f ≡ false
  pub out_old : contains s.old f ≡ false

contains-remove_other :
    (xs : List ℕ) (g f : ℕ) → contains xs f ≡ false → contains (remove xs g) f ≡ false
unfolding contains remove
contains-remove_other [] g f h = h
contains-remove_other (x ∷ xs) g f h = ground (arith, contains-remove_other xs g f)

-- Neither the front of a part nor its last frame is the frame.
contains-front :
    (xs rest : List ℕ) (g f : ℕ)
    → xs ≡ rest ++ g ∷ []
    → contains xs f ≡ false
    → (contains rest f ≡ false) × ((g == f) ≡ false)
unfolding contains
contains-front xs rest g f split h =
    let whole : contains (rest ++ g ∷ []) f ≡ false = ap (λ ys. contains ys f) (sym split) ∙ h in
    (
      ground (arith, contains-append rest (g ∷ []) f),
      ground (arith, contains-append rest (g ∷ []) f),
    )

module _ (f : ℕ) where
  demote-IsStuck :
      (s : LruReplacer) (rest : List ℕ) (g : ℕ)
      → s.young ≡ rest ++ g ∷ []
      → IsStuck f s
      → IsStuck f (demote s rest g)
  unfolding contains
  demote-IsStuck s rest g split v =
      let (front, other) = contains-front s.young rest g f split v.out_young in
      record {
        in_old = v.in_old;
        node = rw other v.node;
        out_young = front;
        out_old = rw other v.out_old;
      }

  rebalance_loop-IsStuck : (n : ℕ) (s : LruReplacer) → IsStuck f s → IsStuck f (rebalance_loop n s)
  unfolding rebalance_loop
  rebalance_loop-IsStuck zero s v = v
  rebalance_loop-IsStuck (suc n) s v = elim (Bool-cases (ltb s.target_old_size s.old_size)) [
    | inr enough ↦ rw (enough, rebalance_loop) v
    | inl over ↦ elim (split_last-cases s.young) [
      | inl (_, h) ↦ rw (over, h, rebalance_loop) v
      | inr (rest, g, split, h) ↦
          rw (over, h, rebalance_loop)
            (rebalance_loop-IsStuck n (demote s rest g) (demote-IsStuck s rest g split v))
    ]
  ]

  unlink-IsStuck : (g : ℕ) (s : LruReplacer) → IsStuck f s → Held (IsStuck f) (unlink g s)
  unfolding unlink
  unlink-IsStuck g s v = elim (Bool-cases (contains s.young g)) [
    | inl young ↦
        rw (young, unlink)
          (record {
            in_old = v.in_old;
            node = v.node;
            out_young = contains-remove_other s.young g f v.out_young;
            out_old = v.out_old;
          })
    | inr out ↦ elim (Bool-cases (contains s.old g)) [
      | inl old ↦
          rw (out, old, unlink)
            (record {
              in_old = v.in_old;
              node = v.node;
              out_young = v.out_young;
              out_old = contains-remove_other s.old g f v.out_old;
            })
      | inr none_old ↦ rw (out, none_old, unlink) tt
    ]
  ]

  pub unlink-stuck : (s : LruReplacer) → IsStuck f s → unlink f s ≡ none
  unfolding unlink
  unlink-stuck s v = rw (v.out_young, v.out_old, unlink) refl

  pin-IsStuck : (g : ℕ) (s : LruReplacer) → IsStuck f s → Held (IsStuck f) (pin g s)
  unfolding pin
  pin-IsStuck g s v = elim (Option-cases (s.nodes g)) [
    | inl e ↦ rw (e, pin) v
    | inr (in_old, e) ↦
        rw (e, pin) (Held-map (IsStuck f) _ (unlink g s) (counted in_old) (unlink-IsStuck g s v))
  ]
    where
      counted :
          (b : Bool) (t : LruReplacer)
          → IsStuck f t
          → IsStuck f (
              if b
              then record t { old_size = dec_size t.old_size }
              else record t { young_size = dec_size t.young_size })
      counted true t w = record {
        in_old = w.in_old;
        node = w.node;
        out_young = w.out_young;
        out_old = w.out_old;
      }
      counted false t w = record {
        in_old = w.in_old;
        node = w.node;
        out_young = w.out_young;
        out_old = w.out_old;
      }

  unpin-IsStuck : (g : ℕ) (s : LruReplacer) → IsStuck f s → IsStuck f (unpin g s)
  unfolding unpin rebalance contains
  unpin-IsStuck g s v = elim (Option-cases (s.nodes g)) [
    | inr (b, e) ↦ rw (e, unpin) v
    | inl e ↦ elim (eq-cases g f) [
      | inl (same, _) ↦ absurd (clash (sym e ∙ ap s.nodes same ∙ v.node))
      | inr (_, other) ↦
          rw (e, unpin)
            (rebalance_loop-IsStuck s.young_size
              (record (insert_old g s) { old_size = s.old_size + 1 })
              (record {
                in_old = v.in_old;
                node = rw other v.node;
                out_young = v.out_young;
                out_old = rw other v.out_old;
              }))
    ]
  ]
    where
      clash : {b : Bool} → ¬ (none ≡ some b)
      clash h = cc

  insert_young-IsStuck :
      (g : ℕ) (s : LruReplacer) → (g == f) ≡ false → IsStuck f s → IsStuck f (insert_young g s)
  unfolding contains
  insert_young-IsStuck g s other v = record {
    in_old = v.in_old;
    node = rw other v.node;
    out_young = rw other v.out_young;
    out_old = v.out_old;
  }

  access-IsStuck : (g : ℕ) (s : LruReplacer) → IsStuck f s → Held (IsStuck f) (access g s)
  unfolding access rebalance
  access-IsStuck g s v = elim (Option-cases (s.nodes g)) [
    | inl e ↦ rw (e, access) v
    | inr (b, e) ↦ elim (eq-cases g f) [
      | inl (same, _) ↦
          subst (λ k. Held (IsStuck f) (access k s)) (sym same)
            (rw (v.node, unlink-stuck s v, access) tt)
      | inr (_, other) ↦
          rw (e, access)
            (Held-map (IsStuck f) _ (unlink g s) (placed b other) (unlink-IsStuck g s v))
    ]
  ]
    where
      placed :
          (b : Bool)
          → (g == f) ≡ false
          → (t : LruReplacer) → IsStuck f t
          → IsStuck f (
              if b
              then rebalance
                  (record (insert_young g (record t { old_size = dec_size t.old_size })) {
                    young_size = t.young_size + 1;
                  })
              else insert_young g t)
      placed true other t w =
          let u = insert_young-IsStuck g t other w in
          rebalance_loop-IsStuck (t.young_size + 1) _ (record {
            in_old = u.in_old;
            node = u.node;
            out_young = u.out_young;
            out_old = u.out_old;
          })
      placed false other t w = insert_young-IsStuck g t other w

  pub evict-IsStuck :
      (s : LruReplacer)
      → IsStuck f s
      → Held (λ (x : ℕ × LruReplacer). ((x.0 == f) ≡ false) × IsStuck f x.1) (evict s)
  unfolding evict
  evict-IsStuck s v = elim (split_last-cases s.old) [
    | inr (rest, g, split, h) ↦
        let (front, other) = contains-front s.old rest g f split v.out_old in
        rw (h, evict)
          (
            other,
            record {
              in_old = v.in_old;
              node = rw other v.node;
              out_young = v.out_young;
              out_old = front;
            },
          )
    | inl (_, h) ↦ elim (split_last-cases s.young) [
      | inl (_, h') ↦ rw (h, h', evict) tt
      | inr (rest, g, split, h') ↦
          let (front, other) = contains-front s.young rest g f split v.out_young in
          rw (h, h', evict)
            (
              other,
              record {
                in_old = v.in_old;
                node = rw other v.node;
                out_young = front;
                out_old = v.out_old;
              },
            )
    ]
  ]

-- The states that calls on the list lead to; a call that meets a null link leads to none.
pub data After (s : LruReplacer) : LruReplacer → Type 0 where
  no_calls : After s s
  pinned : (g : ℕ) (t u : LruReplacer) → After s t → pin g t ≡ some u → After s u
  unpinned : (g : ℕ) (t : LruReplacer) → After s t → After s (unpin g t)
  accessed : (g : ℕ) (t u : LruReplacer) → After s t → access g t ≡ some u → After s u
  evicted : (g : ℕ) (t u : LruReplacer) → After s t → evict t ≡ some (g, u) → After s u

pub After-IsStuck : {s t : LruReplacer} (f : ℕ) → IsStuck f s → After s t → IsStuck f t
After-IsStuck f v no_calls = v
After-IsStuck f v (pinned g t u run e) =
    subst (Held (IsStuck f)) e (pin-IsStuck f g t (After-IsStuck f v run))
After-IsStuck f v (unpinned g t run) = unpin-IsStuck f g t (After-IsStuck f v run)
After-IsStuck f v (accessed g t u run e) =
    subst (Held (IsStuck f)) e (access-IsStuck f g t (After-IsStuck f v run))
After-IsStuck f v (evicted g t u run e) =
    (subst (Held (λ (x : ℕ × LruReplacer). ((x.0 == f) ≡ false) × IsStuck f x.1)) e
      (evict-IsStuck f t (After-IsStuck f v run))).1
