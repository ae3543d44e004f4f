-- ===== src/Storage/BufferPool.antt =====
-- src/storage/buffer/frame.h, buffer_pool.h and buffer_pool.cpp: the buffer pool over a page store.
-- One thread runs at a time: a call holds the global latch to its end, so that no other thread sees
-- a frame that is loading, and the release of the latch during I/O changes nothing. The page store
-- is an interface; `PageManager::getPage` and `writePage` do not throw.
pub mod Invariant
pub mod Drop
pub mod Frames
pub mod Victim
pub mod Eviction
pub mod Stores
pub mod Fetch
pub mod Pins
pub mod Unpin
pub mod Flush
mod Tests
use mathlib.Core.Option
use seeddb.Base.{
  ℕ, zero, suc, ◌+◌, Bool, true, false, not, ◌&&◌, List, [], ◌∷◌, Option, none, some, ◌==◌,
  if◌then◌else◌, ◌||◌,
}
use seeddb.Base.Int.{ℤ, pos, negsuc, inc, dec, is_positive}
use seeddb.Storage.PageId.{PageId, is_valid, same}
use seeddb.Storage.Lru.{LruReplacer}
use seeddb.Storage.Lru

-- What the pool uses of `PageManager`. `Content` is a `Page` but for the header's padding byte,
-- which is not read from disk. `get_page` is `none` where `getPage` answers false.
pub record PageStore : Type 1 where
  pub Store : Type 0
  pub Content : Type 0
  pub fresh : PageId → Content
  pub allocate_page : ℕ → Store → PageId × Store
  pub get_page : PageId → Store → Option Content
  pub write_page : PageId → Content → Store → Bool × Store

-- `enum class FrameState`
pub data FrameState : Type 0 where
  empty loading ready : FrameState

abbrev pub is_ready : FrameState → Bool
is_ready ready = true
is_ready _ = false

abbrev pub is_empty : FrameState → Bool
is_empty empty = true
is_empty _ = false

pub record Frame (Content : Type 0) : Type 0 where
  pub page : Content
  pub page_id : PageId
  pub pin_count : ℤ
  pub is_dirty : Bool
  pub state : FrameState

-- `frames` is the array, read below `pool_size`; `page_table` is the map as a function.
pub record BufferPool (Store Content : Type 0) : Type 0 where
  pub store : Store
  pub pool_size : ℕ
  pub frames : ℕ → Frame Content
  pub page_table : PageId → Option ℕ
  pub replacer : LruReplacer

abbrev pub set_frame : {C : Type 0} → (ℕ → Frame C) → ℕ → Frame C → ℕ → Frame C
set_frame frames fid f i = if fid == i then f else frames i

abbrev pub set_entry : (PageId → Option ℕ) → PageId → Option ℕ → PageId → Option ℕ
set_entry table pid v k = if same pid k then v else table k

module _ (S : PageStore) where
  open S use {Store, Content, fresh, allocate_page, get_page, write_page}

  abbrev pub Pool : Type 0
  Pool = BufferPool Store Content

  -- The constructor; `none` where it throws. The frames hold default pages.
  unfoldable pub make : Store → ℕ → ℤ → Content → PageId → Option Pool
  make store pool_size old_pct page pid =
      if pool_size == 0
      then none
      else some (record {
        store = store;
        pool_size = pool_size;
        frames = λ i. record {
          page = page;
          page_id = pid;
          pin_count = pos 0;
          is_dirty = false;
          state = empty;
        };
        page_table = λ k. none;
        replacer = Lru.make pool_size old_pct;
      })

  -- `flushFrame`: the dirty flag is cleared, and set again if the write fails.
  unfoldable pub flush_frame : ℕ → Pool → Pool
  flush_frame fid p =
      let f = p.frames fid in
      let written = write_page f.page_id f.page p.store in
      if not (is_ready f.state) || not f.is_dirty then p else record p {
        store = written.1;
        frames = set_frame p.frames fid (record f { is_dirty = not written.0 });
      }

  -- The first loop of `findVictim`, over the frames from `i` on, `left` in all.
  unfoldable pub find_empty : (ℕ → Frame Content) → ℕ → ℕ → Option ℕ
  find_empty frames i zero = none
  find_empty frames i (suc left) = elim (is_empty (frames i).state) [
    | true ↦ some i
    | false ↦ find_empty frames (i + 1) left
  ]

  -- What `findVictim` does with the replacer's victim.
  unfoldable pub drop_frame : ℕ → LruReplacer → Pool → Pool
  unfolding flush_frame
  drop_frame fid rest p =
      let q = flush_frame fid (record p { replacer = rest }) in
      record q {
        page_table = set_entry q.page_table (q.frames fid).page_id none;
        frames = set_frame q.frames fid (record (q.frames fid) { state = empty });
      }

  -- `findVictim`; `none` is `INVALID_FRAME_ID`.
  unfoldable pub find_victim : Pool → Option ℕ × Pool
  unfolding find_empty drop_frame Lru.evict
  find_victim p = elim (find_empty p.frames 0 p.pool_size) [
    | some fid ↦ (some fid, p)
    | none ↦ elim (Lru.evict p.replacer) [
      | none ↦ (none, p)
      | some (fid, rest) ↦ (some fid, drop_frame fid rest p)
    ]
  ]

  -- `FetchPage` once it has a frame: the frame is marked, taken off the replacer, and loaded.
  unfoldable pub load_frame : PageId → ℕ → Pool → Option (Option ℕ × Pool)
  unfolding Lru.pin
  load_frame pid fid p =
      Option.map
        (λ (r : LruReplacer). elim (get_page pid p.store) [
          | none ↦ (
            none,
            record p {
              replacer = r;
              frames = set_frame p.frames fid (record (p.frames fid) {
                page_id = pid;
                state = empty;
                pin_count = pos 0;
                is_dirty = false;
              });
            },
          )
          | some content ↦ (
            some fid,
            record p {
              replacer = r;
              page_table = set_entry p.page_table pid (some fid);
              frames = set_frame p.frames fid (record {
                page = content;
                page_id = pid;
                pin_count = pos 1;
                is_dirty = false;
                state = ready;
              });
            },
          )
        ])
        (Lru.pin fid p.replacer)

  -- The path of `FetchPage` behind a cache miss.
  unfoldable pub fetch_miss : PageId → Pool → Option (Option ℕ × Pool)
  unfolding find_victim load_frame
  fetch_miss pid p =
      let (victim, q) = find_victim p in
      elim victim [ none ↦ some (none, q) | some fid ↦ load_frame pid fid q ]

  -- The path of `FetchPage` on a cache hit.
  unfoldable pub fetch_hit : ℕ → Pool → Option (Option ℕ × Pool)
  unfolding Lru.access
  fetch_hit fid p =
      Option.map
        (λ (r : LruReplacer). (
          some fid,
          record p {
            replacer = r;
            frames =
                set_frame p.frames fid
                  (record (p.frames fid) { pin_count = inc (p.frames fid).pin_count });
          },
        ))
        (Lru.access fid p.replacer)

  -- `FetchPage`: the frame whose page is returned, `none` for a null pointer; the outer `none` is a
  -- step through a null link of the replacer.
  unfoldable pub fetch_page : PageId → Pool → Option (Option ℕ × Pool)
  unfolding fetch_hit fetch_miss
  fetch_page pid p = elim (p.page_table pid) [
    | none ↦ fetch_miss pid p
    | some fid ↦ if is_ready (p.frames fid).state then fetch_hit fid p else fetch_miss pid p
  ]

  -- `NewPage`: the new page's identifier and its frame.
  unfoldable pub new_page : ℕ → Pool → Option (Option (PageId × ℕ) × Pool)
  unfolding find_victim Lru.pin
  new_page file_id p =
      let (pid, store) = allocate_page file_id p.store in
      let (victim, q) = find_victim (record p { store = store }) in
      if not (is_valid pid) then some (none, record p { store = store }) else elim victim [
        | none ↦ some (none, q)
        | some fid ↦
            Option.map
              (λ (r : LruReplacer). (
                some (pid, fid),
                record q {
                  replacer = r;
                  page_table = set_entry q.page_table pid (some fid);
                  frames = set_frame q.frames fid (record {
                    page = fresh pid;
                    page_id = pid;
                    pin_count = pos 1;
                    is_dirty = true;
                    state = ready;
                  });
                },
              ))
              (Lru.pin fid q.replacer)
      ]
