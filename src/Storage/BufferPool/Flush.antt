-- ===== src/Storage/BufferPool/Flush.antt =====
-- src/storage/buffer/buffer_pool.cpp: `FlushPage` and `FlushAll`.
use seeddb.Base.{
  ℕ, zero, suc, ◌+◌, Bool, true, false, ◌&&◌, List, [], ◌∷◌, none, some, if◌then◌else◌,
}
use seeddb.Storage.PageId.{PageId, same}
use seeddb.Storage.BufferPool.{PageStore, Pool, is_ready, Frame, flush_frame}

module _ (S : PageStore) where
  open S use {Store, Content, fresh, allocate_page, get_page, write_page}

  -- `FlushPage`
  unfoldable pub flush_page : PageId → Pool S → Bool × Pool S
  unfolding flush_frame
  flush_page pid p = elim (p.page_table pid) [
    | none ↦ (false, p)
    | some fid ↦ (true, flush_frame S fid p)
  ]

  -- The first loop of `FlushAll`: the dirty frames with their pages.
  unfoldable pub dirty_frames : (ℕ → Frame Content) → ℕ → ℕ → List (ℕ × PageId)
  dirty_frames frames i zero = []
  dirty_frames frames i (suc left) =
      let rest = dirty_frames frames (i + 1) left in
      if is_ready (frames i).state && (frames i).is_dirty
      then (i, (frames i).page_id) ∷ rest
      else rest

  -- The second loop of `FlushAll`.
  unfoldable pub flush_each : List (ℕ × PageId) → Pool S → Pool S
  unfolding flush_frame
  flush_each [] p = p
  flush_each ((fid, pid) ∷ rest) p = flush_each rest (
      if is_ready (p.frames fid).state && same (p.frames fid).page_id pid
      then flush_frame S fid p
      else p)

  unfoldable pub flush_all : Pool S → Pool S
  unfolding dirty_frames flush_each
  flush_all p = flush_each (dirty_frames p.frames 0 p.pool_size) p
