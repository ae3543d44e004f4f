-- ===== src/Storage/BufferPool/Fetch.antt =====
-- `FetchPage` of src/storage/buffer/buffer_pool.cpp on a coherent pool.
use seeddb.Base.{
  false, ℕ, ◌<◌, ◌≡◌, some, none, refl, inl, ◌⊎◌, inr, sym, ◌∙◌, Option, Option-cases, ≡→==_true,
  ap, subst,
}
use seeddb.Base.Int.{pos, inc}
use seeddb.Storage.PageId.{PageId, same_iff}
use seeddb.Storage.Lru.{LruReplacer, contains, pin}
use seeddb.Storage.Lru.Laws as Lru
use seeddb.Storage.Lru.Laws.{contains-remove}
use seeddb.Storage.Lru.Order.{node_of_missing}
use seeddb.Storage.BufferPool.{
  PageStore, Pool, empty, ready, Frame, load_frame, fetch_miss, set_frame, set_entry, fetch_page,
  fetch_hit,
}
use seeddb.Storage.BufferPool.Invariant.{StoreLaws, view, view-none, IsCoherent, WritesBack}
use seeddb.Storage.Lru.Evict.{access_keeps}
use seeddb.Storage.BufferPool.Victim.{IsFull, find_victim_lem}
use seeddb.Storage.BufferPool.Frames.{
  spare-unlisted, blanked-view, blanked-IsCoherent, filled-view, filled-IsCoherent, pinned-Agrees,
  repinned, repinned-IsCoherent, repinned-view,
}

pub pin-missing :
    (s : LruReplacer) (f : ℕ) → Lru.IsValid s → contains (Lru.order s) f ≡ false → pin f s ≡ some s
unfolding pin
pin-missing s f v new = rw (node_of_missing s f v new, pin) refl

module _ (S : PageStore) where
  -- What a miss and a hit leave: the answer and the pool, which shows every page as before.
  abbrev pub MissOutcome : PageId → Pool S → Option (Option ℕ × Pool S) → Type 0
  MissOutcome pid p result =
      (r : Option ℕ) × (q : Pool S) × (result ≡ some (r, q))
      × IsCoherent S q
      × ((k : PageId) → view S q k ≡ view S p k)
      × (((fid : ℕ) × (r ≡ some fid)
            × (q.page_table pid ≡ some fid)
            × ((q.frames fid).pin_count ≡ pos 1))
          ⊎ ((r ≡ none) × (view S p pid ≡ none))
          ⊎ ((r ≡ none) × IsFull S p))

  abbrev pub LoadOutcome : PageId → ℕ → Pool S → Type 0
  LoadOutcome pid fid p =
      (r : Option ℕ) × (q : Pool S) × (load_frame S pid fid p ≡ some (r, q))
      × IsCoherent S q
      × ((k : PageId) → view S q k ≡ view S p k)
      × (((r ≡ some fid) × (q.page_table pid ≡ some fid) × ((q.frames fid).pin_count ≡ pos 1))
          ⊎ ((r ≡ none) × (view S p pid ≡ none)))

  pub load_frame_lem :
      (pid : PageId) (fid : ℕ) (p : Pool S)
      → IsCoherent S p
      → fid < p.pool_size
      → (p.frames fid).state ≡ empty
      → p.page_table pid ≡ none
      → LoadOutcome pid fid p
  unfolding load_frame
  load_frame_lem pid fid p v lt spare absent =
      let blank : Frame S.Content = record (p.frames fid) {
        page_id = pid;
        state = empty;
        pin_count = pos 0;
        is_dirty = false;
      } in
      let idle =
        pin-missing p.replacer fid v.lru (spare-unlisted S p fid (p.frames fid) v lt spare) in
      elim (Option-cases (S.get_page pid p.store)) [
        | inl e ↦ (
          none,
          record p { frames = set_frame p.frames fid blank },
          rw (idle, e, load_frame) refl,
          blanked-IsCoherent S p fid blank v lt spare refl,
          blanked-view S p fid blank v lt spare,
          inr (refl, view-none S p pid absent ∙ e),
        )
        | inr (c, e) ↦
            let f : Frame S.Content = record {
              page = c;
              page_id = pid;
              pin_count = pos 1;
              is_dirty = false;
              state = ready;
            } in
            (
              some fid,
              record p {
                frames = set_frame p.frames fid f;
                page_table = set_entry p.page_table pid (some fid);
              },
              rw (idle, e, load_frame) refl,
              filled-IsCoherent S p fid f v lt spare pid absent e refl refl,
              filled-view S p fid f v lt spare pid absent e,
              inl (refl, rw ((same_iff pid pid).1 refl) refl, rw (≡→==_true fid fid refl) refl),
            )
      ]

  after_victim : PageId → Option ℕ × Pool S → Option (Option ℕ × Pool S)
  after_victim pid x = elim x.0 [ none ↦ some (none, x.1) | some fid ↦ load_frame S pid fid x.1 ]

  pub fetch_miss_lem :
      StoreLaws S
      → (pid : PageId) (p : Pool S) → IsCoherent S p
      → WritesBack S p
      → p.page_table pid ≡ none
      → MissOutcome pid p (fetch_miss S pid p)
  unfolding fetch_miss after_victim
  fetch_miss_lem laws pid p v writes absent = elim (find_victim_lem S laws p v writes) [
    | inr (e, full) ↦ (none, p, ap (after_victim pid) e, v, (λ k. refl), inr (inr (refl, full)))
    | inl (fid, q, e, lt, spare, w, same_view, still) ↦
        let (r, t, out, u, shown, answer) =
          load_frame_lem pid fid q w lt spare (still pid absent) in
        (
          r,
          t,
          ap (after_victim pid) e ∙ out,
          u,
          (λ k. shown k ∙ same_view k),
          elim answer [
            | inl (a, b, c) ↦ inl (fid, a, b, c)
            | inr (a, b) ↦ inr (inl (a, sym (same_view pid) ∙ b))
          ],
        )
  ]

  abbrev pub FetchOutcome : PageId → Pool S → Type 0
  FetchOutcome pid p =
      ((fid : ℕ) × (q : Pool S) × (p.page_table pid ≡ some fid)
        × (fetch_page S pid p ≡ some (some fid, q))
        × IsCoherent S q
        × ((k : PageId) → view S q k ≡ view S p k)
        × (q.page_table pid ≡ some fid)
        × ((q.frames fid).pin_count ≡ inc (p.frames fid).pin_count))
      ⊎ ((p.page_table pid ≡ none) × MissOutcome pid p (fetch_page S pid p))

  -- On a coherent pool whose store takes the cached pages: `FetchPage` meets no null link, leaves
  -- the pool coherent, and no page changes for a reader, whichever frame it evicts. A cached page
  -- is answered with its frame, pinned once more. Another page is answered with the frame that now
  -- holds it, pinned once; or with a null pointer, and then the store does not have the page, or no
  -- frame is empty and the LRU list is.
  pub fetch_page_lem :
      StoreLaws S
      → (pid : PageId) (p : Pool S) → IsCoherent S p
      → WritesBack S p
      → FetchOutcome pid p
  unfolding fetch_page fetch_hit
  fetch_page_lem laws pid p v writes = elim (Option-cases (p.page_table pid)) [
    | inl absent ↦
        let miss : fetch_page S pid p ≡ fetch_miss S pid p = rw (absent, fetch_page) refl in
        inr
          (absent, subst (MissOutcome pid p) (sym miss) (fetch_miss_lem laws pid p v writes absent))
    | inr (fid, there) ↦
        let (lt, is, own) = v.entries pid fid there in
        let frames =
          set_frame p.frames fid
            (record (p.frames fid) { pin_count = inc (p.frames fid).pin_count }) in
        let agrees = pinned-Agrees S p.frames fid (inc (p.frames fid).pin_count) in
        let (r, e, valid, fewer) = access_keeps p.replacer fid v.lru in
        inl (
          fid,
          repinned S p frames r agrees,
          there,
          rw (there, is, e, fetch_page) refl,
          repinned-IsCoherent S p frames r agrees v valid (λ i h. v.listed i (fewer i h)),
          repinned-view S p frames r agrees,
          there,
          rw (≡→==_true fid fid refl) refl,
        )
  ]
