-- ===== src/Storage/BufferPool/Eviction.antt =====
-- What `findVictim` of src/storage/buffer/buffer_pool.cpp gives away.
use seeddb.Base.{
  true, false, ℕ, List, ◌++◌, ◌<◌, ◌≡◌, some, ◌∷◌, ◌≢◌, [], none, inl, refl, sym, arith, ◌∙◌, inr,
  ≡→==_true, ap, Option, Bool,
}
use seeddb.Base.Int.{pos, inc}
use seeddb.Storage.PageId.{PageId, same_iff}
use seeddb.Storage.Lru.{LruReplacer, evict}
use seeddb.Storage.Lru.Laws as Lru
use seeddb.Storage.Lru.Laws.{contains-last}
use seeddb.Storage.Lru.Evict.{access_only, evict_last}
use seeddb.Storage.BufferPool.{
  PageStore, Pool, empty, find_empty, find_victim, flush_frame, drop_frame, fetch_hit, fetch_page,
  set_frame,
}
use seeddb.Storage.BufferPool.Invariant.{view, view-none, view-some, IsCoherent, find_empty-cases}
use seeddb.Storage.BufferPool.Frames.{pinned-Agrees, repinned}

single_last : (xs : List ℕ) (f g : ℕ) → xs ++ f ∷ [] ≡ g ∷ [] → f ≡ g
single_last [] f g h = cc
single_last (x ∷ []) f g h = cc
single_last (x ∷ y ∷ xs) f g h = cc

module _ (S : PageStore) where
  find_empty-full :
      (p : Pool S)
      → ((i : ℕ) → i < p.pool_size → (p.frames i).state ≢ empty)
      → find_empty S p.frames 0 p.pool_size ≡ none
  find_empty-full p full = elim (find_empty-cases S p.frames p.pool_size 0) [
    | inl (fid, _, hi, spare, _) ↦ absurd (full fid (omega arith) spare)
    | inr (_, e) ↦ e
  ]

  -- The victim of a full pool is the last frame of the list.
  find_victim-full :
      (p : Pool S)
      → ((i : ℕ) → i < p.pool_size → (p.frames i).state ≢ empty)
      → (fid : ℕ) → (rest : LruReplacer) → evict p.replacer ≡ some (fid, rest)
      → find_victim S p ≡ (some fid, drop_frame S fid rest p)
  unfolding find_victim
  find_victim-full p full fid rest e = rw (find_empty-full p full, e, find_victim) refl

  abbrev pub PinnedOutcome : PageId → ℕ → Pool S → Type 0
  PinnedOutcome pid fid p =
      (q : Pool S) × (fetch_page S pid p ≡ some (some fid, q))
      × ((q.frames fid).pin_count ≡ pos 1)
      × ((find_victim S q).0 ≡ some fid)

  -- On a coherent pool without an empty frame, whose LRU list is the one frame of a cached page that
  -- nobody has pinned: `FetchPage` of the page pins the frame, and the next `findVictim` still gives
  -- the frame away, pinned as it is.
  pub pinned_victim :
      (pid : PageId) (fid : ℕ) (p : Pool S)
      → IsCoherent S p
      → ((i : ℕ) → i < p.pool_size → (p.frames i).state ≢ empty)
      → p.page_table pid ≡ some fid
      → (p.frames fid).pin_count ≡ pos 0
      → Lru.order p.replacer ≡ fid ∷ []
      → PinnedOutcome pid fid p
  unfolding fetch_page fetch_hit
  pinned_victim pid fid p v full there unpinned only =
      let (lt, is, own) = v.entries pid fid there in
      let frames =
        set_frame p.frames fid
          (record (p.frames fid) { pin_count = inc (p.frames fid).pin_count }) in
      let agrees = pinned-Agrees S p.frames fid (inc (p.frames fid).pin_count) in
      let (r, e, rest, gone) = access_only p.replacer fid v.lru only in
      let still : (i : ℕ) → i < p.pool_size → (frames i).state ≢ empty =
        λ i hi h. let (state, _, _, _) = agrees i in full i hi (sym state ∙ h) in
      (
        repinned S p frames r agrees,
        rw (there, is, e, fetch_page) refl,
        rw (≡→==_true fid fid refl, unpinned) refl,
        ap (λ (x : Option ℕ × Pool S). x.0)
            (find_victim-full (repinned S p frames r agrees) still fid rest gone),
      )

  abbrev pub LostOutcome : ℕ → Pool S → Type 0
  LostOutcome fid p =
      (q : Pool S) × (find_victim S p ≡ (some fid, q))
      × (view S p (p.frames fid).page_id ≡ some (p.frames fid).page)
      × (view S q (p.frames fid).page_id ≡ S.get_page (p.frames fid).page_id p.store)

  -- On a coherent pool without an empty frame, where the last frame of the LRU list is dirty and the
  -- store refuses the write of its page and stays as it is: `findVictim` gives the frame away all
  -- the same. A reader of the page, who saw the cached content before, now sees what the store has.
  pub refused_victim :
      (xs : List ℕ) (fid : ℕ) (p : Pool S)
      → IsCoherent S p
      → ((i : ℕ) → i < p.pool_size → (p.frames i).state ≢ empty)
      → Lru.order p.replacer ≡ xs ++ fid ∷ []
      → (p.frames fid).is_dirty ≡ true
      → S.write_page (p.frames fid).page_id (p.frames fid).page p.store ≡ (false, p.store)
      → LostOutcome fid p
  unfolding drop_frame flush_frame
  refused_victim xs fid p v full split dirty refused =
      let (lt, is) = v.listed fid (rw split (contains-last xs fid)) in
      let (rest, gone) = evict_last p.replacer xs fid v.lru split in
      let q = drop_frame S fid rest p in
      let pid = (p.frames fid).page_id in
      let out : q.page_table pid ≡ none =
        rw (is, dirty, ≡→==_true fid fid refl, (same_iff pid pid).1 refl) refl in
      let kept : q.store ≡ p.store = rw (is, dirty) (ap (λ (x : Bool × S.Store). x.1) refused) in
      (
        q,
        find_victim-full p full fid rest gone,
        view-some S p pid fid (v.held fid lt is),
        view-none S q pid out ∙ ap (S.get_page pid) kept,
      )
