-- ===== src/Storage/BufferPool/Victim.antt =====
-- `findVictim` of src/storage/buffer/buffer_pool.cpp on a coherent pool.
use seeddb.Base.{
  true, ℕ, List, ◌<◌, ◌≡◌, some, ◌++◌, ◌≢◌, [], none, refl, ◌∷◌, inl, ◌⊎◌, inr, arith, subst, sym,
  ◌∙◌, Option, ap, Bool-cases,
}
use seeddb.Storage.PageId.{PageId, same}
use seeddb.Storage.Lru.{LruReplacer, contains}
use seeddb.Storage.Lru.Laws as Lru
use seeddb.Storage.Lru.Laws.{contains-append, contains-last}
use seeddb.Storage.Lru.Order.{Distinct-split_last}
use seeddb.Storage.Lru.Evict.{evict_lem}
use seeddb.Storage.BufferPool.{PageStore, Pool, empty, find_victim, set_entry}
use seeddb.Storage.BufferPool.Invariant.{
  StoreLaws, view, IsCoherent, find_empty-cases, WritesBack, absurd_of,
}
use seeddb.Storage.BufferPool.Drop.{drop_frame-Drops, dropped-view, dropped-IsCoherent}

fewer :
    (xs : List ℕ) (fid : ℕ) (rest s : LruReplacer)
    → Lru.Distinct (xs ++ fid ∷ [])
    → Lru.order s ≡ xs ++ fid ∷ []
    → Lru.order rest ≡ xs
    → (i : ℕ) → contains (Lru.order rest) i ≡ true
    → (fid ≢ i) × (contains (Lru.order s) i ≡ true)
fewer xs fid rest s apart split order i h =
    let there : contains xs i ≡ true = ap (λ ys. contains ys i) (sym order) ∙ h in
    let (_, gone) = Distinct-split_last xs fid apart in
    (
      (λ e. absurd_of (ap (contains xs) (sym e)) there gone),
      rw (split, contains-append, there) refl,
    )

cleared :
    (table : PageId → Option ℕ) (n k : PageId) → table k ≡ none → set_entry table n none k ≡ none
cleared table n k h = elim (Bool-cases (same n k)) [ inl hit ↦ rw hit refl | inr miss ↦ rw miss h ]

module _ (S : PageStore) where
  -- No frame is empty, and the list has no frame to give.
  abbrev pub IsFull : Pool S → Type 0
  IsFull p = ((i : ℕ) → i < p.pool_size → (p.frames i).state ≢ empty) × (Lru.order p.replacer ≡ [])

  abbrev pub VictimOutcome : Pool S → Type 0
  VictimOutcome p =
      ((fid : ℕ) × (q : Pool S) × (find_victim S p ≡ (some fid, q))
        × (fid < q.pool_size)
        × ((q.frames fid).state ≡ empty)
        × IsCoherent S q
        × ((k : PageId) → view S q k ≡ view S p k)
        × ((k : PageId) → p.page_table k ≡ none → q.page_table k ≡ none))
      ⊎ ((find_victim S p ≡ (none, p)) × IsFull p)

  pub find_victim_lem :
      StoreLaws S → (p : Pool S) → IsCoherent S p → WritesBack S p → VictimOutcome p
  unfolding find_victim
  find_victim_lem laws p v writes = elim (find_empty-cases S p.frames p.pool_size 0) [
    | inl (fid, lo, hi, spare, e) ↦
        inl (fid, p, rw (e, find_victim) refl, omega arith, spare, v, (λ k. refl), λ k h. h)
    | inr (full, e) ↦ elim (evict_lem p.replacer v.lru) [
      | inr (nothing, e') ↦
          inr
            (rw (e, e', find_victim) refl, ((λ i hi. full i (omega arith) (omega arith)), nothing))
      | inl (xs, fid, rest, split, e', valid, order) ↦
          let last_in : contains (Lru.order p.replacer) fid ≡ true =
            rw split (contains-last xs fid) in
          let (lt, is) = v.listed fid last_in in
          let d =
            drop_frame-Drops S laws p fid rest is (λ dirty. writes fid lt is) (v.clean fid lt is) in
          inl (
            fid,
            _,
            rw (e, e', find_victim) refl,
            subst (λ n. fid < n) (sym d.size) lt,
            d.emptied,
            dropped-IsCoherent S laws p _ fid rest d v lt is valid (
                fewer xs fid rest p.replacer (subst Lru.Distinct split v.lru.distinct) split order),
            dropped-view S laws p _ fid rest d v lt is,
            λ k h. d.table k ∙ cleared p.page_table _ k h,
          )
    ]
  ]
