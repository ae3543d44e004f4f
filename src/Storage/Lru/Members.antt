-- ===== src/Storage/Lru/Members.antt =====
-- Who is in the LRU list of src/storage/buffer/lru_replacer.cpp after `Unpin`.
use seeddb.Base.{ℕ, true, eq-cases, ◌≡◌, inl, ◌⊎◌, inr, ◌∷◌, subst, ≡→==_true, arith, ◌++◌, refl}
use seeddb.Storage.Lru.{LruReplacer, contains, unpin}
use seeddb.Storage.Lru.Laws.{IsValid, order, contains-append}
use seeddb.Storage.Lru.Order.{unpin_lem}

module _ (s : LruReplacer) (f : ℕ) (v : IsValid s) where
  pub unpin-listed : contains (order (unpin f s)) f ≡ true
  unfolding contains
  unpin-listed = elim (unpin_lem s f v) [
    | inl (_, _, e, _) ↦
        rw (e, contains-append s.young (f ∷ s.old) f, ≡→==_true f f refl) (ground arith)
    | inr (there, e) ↦ rw e there
  ]

  -- Only the frame itself joins.
  pub unpin_keeps :
      (i : ℕ) → contains (order (unpin f s)) i ≡ true → (f ≡ i) ⊎ (contains (order s) i ≡ true)
  unfolding contains
  unpin_keeps i h = elim (unpin_lem s f v) [
    | inr (_, e) ↦ inr (subst (λ t. contains (order t) i ≡ true) e h)
    | inl (_, _, e, _) ↦
        let there : contains (s.young ++ f ∷ s.old) i ≡ true =
          subst (λ xs. contains xs i ≡ true) e h in
        elim (eq-cases f i) [
          | inl (same, _) ↦ inl same
          | inr (_, miss) ↦ inr (
              ground
                (arith, contains-append s.young s.old i, contains-append s.young (f ∷ s.old) i))
        ]
  ]
