-- ===== src/Storage/BufferPool/Pins.antt =====
-- src/storage/buffer/buffer_pool.cpp: `UnpinPage`, the latch calls and `pinnedCount`.
use seeddb.Base.{ℕ, zero, suc, ◌+◌, Bool, true, false, not, ◌&&◌, none, some, if◌then◌else◌, ◌||◌}
use seeddb.Base.Int.{ℤ, pos, inc, dec, is_positive}
use seeddb.Storage.PageId.{PageId}
use seeddb.Storage.Lru.{LruReplacer}
use seeddb.Storage.Lru
use seeddb.Storage.BufferPool.{PageStore, Pool, is_ready, Frame, set_frame}

module _ (S : PageStore) where
  open S use {Store, Content, fresh, allocate_page, get_page, write_page}

  abbrev pub is_one : ℤ → Bool
  is_one (pos (suc zero)) = true
  is_one _ = false

  -- `UnpinPage`
  unfoldable pub unpin_page : PageId → Bool → Pool S → Bool × Pool S
  unfolding Lru.unpin
  unpin_page pid is_dirty p = elim (p.page_table pid) [
    | none ↦ (false, p)
    | some fid ↦
        let f = p.frames fid in
        if not (is_positive f.pin_count) then (false, p) else (
          true,
          record p {
            frames =
                set_frame p.frames fid
                  (record f { pin_count = dec f.pin_count; is_dirty = is_dirty || f.is_dirty });
            replacer = if is_one f.pin_count then Lru.unpin fid p.replacer else p.replacer;
          },
        )
  ]

  -- What `RLatchPage` and `WLatchPage` do to the pool: the page's frame is pinned once more.
  unfoldable pub latch_page : PageId → Pool S → Pool S
  latch_page pid p = elim (p.page_table pid) [
    | none ↦ p
    | some fid ↦ record p {
      frames =
          set_frame p.frames fid
            (record (p.frames fid) { pin_count = inc (p.frames fid).pin_count });
    }
  ]

  -- What `RUnlatchPage` and `WUnlatchPage` do to the pool.
  unfoldable pub unlatch_page : PageId → Pool S → Pool S
  unfolding Lru.unpin
  unlatch_page pid p = elim (p.page_table pid) [
    | none ↦ p
    | some fid ↦
        let f = p.frames fid in
        record p {
          frames = set_frame p.frames fid (record f { pin_count = dec f.pin_count });
          replacer = if is_one f.pin_count then Lru.unpin fid p.replacer else p.replacer;
        }
  ]

  -- `pinnedCount`, over the frames from `i` on.
  unfoldable pub pinned_count : (ℕ → Frame Content) → ℕ → ℕ → ℕ
  pinned_count frames i zero = 0
  pinned_count frames i (suc left) =
      (if is_ready (frames i).state && is_positive (frames i).pin_count then 1 else 0)
      + pinned_count frames (i + 1) left
