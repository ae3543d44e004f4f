-- ===== src/Storage/BufferPool/Unpin.antt =====
-- `UnpinPage` of src/storage/buffer/buffer_pool.cpp on a coherent pool.
use seeddb.Base.{
  true, false, ℕ, Bool, Bool-cases, Option-cases, ◌<◌, ◌≡◌, if◌then◌else◌, none, inl, ◌⊎◌, some,
  subst, inr, ◌||◌, ≡→==_true, refl,
}
use seeddb.Base.Int.{pos, dec, is_positive}
use seeddb.Storage.PageId.{PageId}
use seeddb.Storage.Lru.{contains, unpin}
use seeddb.Storage.Lru.Laws as Lru
use seeddb.Storage.Lru.Order.{unpin-IsValid}
use seeddb.Storage.Lru.Members.{unpin_keeps, unpin-listed}
use seeddb.Storage.BufferPool.{PageStore, Pool, ready, set_frame}
use seeddb.Storage.BufferPool.Pins.{unpin_page, is_one}
use seeddb.Storage.BufferPool.Invariant.{view, IsCoherent}
use seeddb.Storage.BufferPool.Frames.{frame-Agrees, repinned, repinned-view, repinned-IsCoherent}

module _ (S : PageStore) where
  abbrev pub UnpinOutcome : PageId → Bool → Pool S → Type 0
  UnpinOutcome pid d p =
      ((unpin_page S pid d p ≡ (false, p))
        × ((p.page_table pid ≡ none)
            ⊎ ((fid : ℕ) × (p.page_table pid ≡ some fid)
                × (is_positive (p.frames fid).pin_count ≡ false))))
      ⊎ ((fid : ℕ) × (q : Pool S) × (p.page_table pid ≡ some fid)
          × (is_positive (p.frames fid).pin_count ≡ true)
          × (unpin_page S pid d p ≡ (true, q))
          × IsCoherent S q
          × ((k : PageId) → view S q k ≡ view S p k)
          × ((q.frames fid).pin_count ≡ dec (p.frames fid).pin_count)
          × ((q.frames fid).is_dirty ≡ (d || (p.frames fid).is_dirty))
          × ((p.frames fid).pin_count ≡ pos 1 → contains (Lru.order q.replacer) fid ≡ true))

  -- On a coherent pool, `UnpinPage` answers false and changes nothing exactly if the page is not
  -- cached or its pin count is not positive. Otherwise the page is cached with a positive
  -- pin count, and it answers true, lowers the pin count by one and adds the
  -- dirty flag; when that was the last pin, the frame is then in the LRU list. The pool stays
  -- coherent and every page shows the content that it showed before.
  pub unpin_page_lem :
      (pid : PageId) (d : Bool) (p : Pool S) → IsCoherent S p → UnpinOutcome pid d p
  unfolding unpin_page
  unpin_page_lem pid d p v = elim (Option-cases (p.page_table pid)) [
    | inl absent ↦ inl (rw (absent, unpin_page) refl, inl absent)
    | inr (fid, there) ↦ elim (Bool-cases (is_positive (p.frames fid).pin_count)) [
      | inr idle ↦ inl (rw (there, idle, unpin_page) refl, inr (fid, there, idle))
      | inl held ↦
          let (lt, is, own) = v.entries pid fid there in
          let count = dec (p.frames fid).pin_count in
          let frames = set_frame p.frames fid (record (p.frames fid) {
            pin_count = count;
            is_dirty = d || (p.frames fid).is_dirty;
          }) in
          let agrees = frame-Agrees S p.frames fid count d in
          let r = if is_one S (p.frames fid).pin_count then unpin fid p.replacer else p.replacer in
          let (valid, listed) = unpinned fid lt is (is_one S (p.frames fid).pin_count) in
          inr (
            fid,
            repinned S p frames r agrees,
            there,
            held,
            rw (there, held, unpin_page) refl,
            repinned-IsCoherent S p frames r agrees v valid listed,
            repinned-view S p frames r agrees,
            rw (≡→==_true fid fid refl) refl,
            rw (≡→==_true fid fid refl) refl,
            λ one. rw one (unpin-listed p.replacer fid v.lru),
          )
    ]
  ]
    where
      unpinned :
          (fid : ℕ)
          → fid < p.pool_size
          → (p.frames fid).state ≡ ready
          → (last : Bool)
          → Lru.IsValid (if last then unpin fid p.replacer else p.replacer)
            × ((i : ℕ)
                → contains (Lru.order (if last then unpin fid p.replacer else p.replacer)) i ≡ true
                → (i < p.pool_size) × ((p.frames i).state ≡ ready))
      unpinned fid lt is false = (v.lru, v.listed)
      unpinned fid lt is true = (
        unpin-IsValid p.replacer fid v.lru,
        λ i h. elim (unpin_keeps p.replacer fid v.lru i h) [
          | inl e ↦ subst (λ n. (n < p.pool_size) × ((p.frames n).state ≡ ready)) e (lt, is)
          | inr old ↦ v.listed i old
        ],
      )
