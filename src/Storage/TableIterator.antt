-- ===== src/Storage/TableIterator.antt =====
-- src/storage/table_iterator.h and table_iterator.cpp, with createIterator of
-- src/storage/storage_manager.cpp: the scan of a table over the buffer pool. The file's number is
-- not `INVALID_FILE_ID`, so that a page that is pinned has a valid identifier; `pinned` is
-- `pinned_page_id_` with the frame of `current_page_`. An outer `none` is a step through a null
-- link of the replacer.
pub mod Steps
pub mod Scan
mod Tests
use seeddb.Base.{
  ℕ, zero, suc, ◌+◌, ◌-◌, Bool, true, false, not, ◌||◌, [], Option, none, some, Bytes, ◌==◌,
  if◌then◌else◌,
}
use seeddb.Storage.PageId.{PageId, Tid, invalid_file_id, invalid_page_num}
use seeddb.Storage.Page.{Page, get_record}
use seeddb.Storage.Schema.{Row, Schema}
use seeddb.Storage.RowSerializer
use seeddb.Storage.BufferPool.{PageStore, Pool, fetch_page}
use seeddb.Storage.BufferPool.Pins.{unpin_page}
use seeddb.Storage.RowStore.{PageManager, pages}

abbrev pub Pinned : Type 0
Pinned = Option (PageId × ℕ)

pub record HeapTableIterator : Type 0 where
  pub file_id : ℕ
  pub total_pages : ℕ
  pub schema : Schema
  pub pinned : Pinned
  pub current_page_num : ℕ
  pub next_slot : ℕ
  pub current_row : Row
  pub row_cached : Bool
  pub current_tid : Tid
  pub has_current : Bool
  pub exhausted : Bool

-- The constructor.
unfoldable pub make : ℕ → ℕ → Schema → HeapTableIterator
make file_id total_pages schema = record {
  file_id = file_id;
  total_pages = total_pages;
  schema = schema;
  pinned = none;
  current_page_num = 0;
  next_slot = 0;
  current_row = [];
  row_cached = false;
  current_tid = record { file_id = invalid_file_id; page_num = invalid_page_num; slot_id = 0 };
  has_current = false;
  exhausted = false;
}

-- The identifier of the page that the scan is at.
abbrev pub page_here : HeapTableIterator → PageId
page_here it = record { file_id = it.file_id; page_num = it.current_page_num }

-- The loop over the slots of a page from `i` on, `left` in all: the first live one.
unfoldable pub find_slot : Page → ℕ → ℕ → Option ℕ
find_slot page zero i = none
find_slot page (suc left) i = elim (get_record page i) [
  | some record_data ↦ some i
  | none ↦ find_slot page left (i + 1)
]

-- The end of a page.
abbrev pub page_done : HeapTableIterator → HeapTableIterator
page_done it = record it { current_page_num = it.current_page_num + 1; next_slot = 0 }

-- A live record is found; its slot is below the page's slot count, so that the `uint16_t` behind it
-- does not wrap.
abbrev pub at_slot : HeapTableIterator → ℕ → HeapTableIterator
at_slot it slot = record it {
  next_slot = slot + 1;
  current_tid = record { file_id = it.file_id; page_num = it.current_page_num; slot_id = slot };
  has_current = true;
}

module _ (M : PageManager) where
  unfoldable pub unpin_clean : PageId → Pool (pages M) → Pool (pages M)
  unfolding unpin_page
  unpin_clean pid p = (unpin_page (pages M) pid false p).1

  -- The destructor, which is also the release at the end of `next`.
  unfoldable pub release : Pinned → Pool (pages M) → Pool (pages M)
  unfolding unpin_clean
  release none p = p
  release (some (pid, fid)) p = unpin_clean pid p

  unfoldable pub fetch_pinned : PageId → Pool (pages M) → Option (Pinned × Pool (pages M))
  unfolding fetch_page
  fetch_pinned pid p = elim (fetch_page (pages M) pid p) [
    | none ↦ none
    | some (none, q) ↦ some (none, q)
    | some (some fid, q) ↦ some (some (pid, fid), q)
  ]

  -- The page of the scan, fetched if it is not the pinned one; the last one is released.
  unfoldable pub open_page : PageId → Pinned → Pool (pages M) → Option (Pinned × Pool (pages M))
  unfolding fetch_pinned unpin_clean
  open_page pid none p = fetch_pinned pid p
  open_page pid (some (held, fid)) p =
      if pid.page_num == held.page_num
      then some (some (held, fid), p)
      else fetch_pinned pid (unpin_clean held p)

  -- The loop over the pages, with `left` pages to go.
  unfoldable pub scan_pages :
      ℕ → HeapTableIterator → Pool (pages M) → Option (Bool × HeapTableIterator × Pool (pages M))
  unfolding open_page find_slot release
  scan_pages zero it p = some (
    false,
    record it { pinned = none; exhausted = true; has_current = false },
    release it.pinned p,
  )
  scan_pages (suc left) it p = elim (open_page (page_here it) it.pinned p) [
    | none ↦ none
    | some (none, q) ↦ scan_pages left (page_done (record it { pinned = none })) q
    | some (some (pid, fid), q) ↦
        let page = (q.frames fid).page in
        elim (find_slot page (page.header.slot_count - it.next_slot) it.next_slot) [
          | some slot ↦ some (true, at_slot (record it { pinned = some (pid, fid) }) slot, q)
          | none ↦ scan_pages left (page_done (record it { pinned = some (pid, fid) })) q
        ]
  ]

  -- `next`
  unfoldable pub next :
      HeapTableIterator → Pool (pages M) → Option (Bool × HeapTableIterator × Pool (pages M))
  unfolding scan_pages
  next it p =
      if it.exhausted
      then some (false, it, p)
      else scan_pages (it.total_pages - it.current_page_num) (record it { row_cached = false }) p

  -- `currentRow`, which caches the row that it reads.
  unfoldable pub current_row : HeapTableIterator → Pool (pages M) → Row × HeapTableIterator
  current_row it p =
      let keep : Row → Row × HeapTableIterator =
        λ row. (row, record it { current_row = row; row_cached = true }) in
      if it.row_cached || not it.has_current then (it.current_row, it) else elim it.pinned [
        | none ↦ keep []
        | some (pid, fid) ↦ elim (get_record (p.frames fid).page it.current_tid.slot_id) [
          | none ↦ keep []
          | some record_data ↦ keep (RowSerializer.deserialize it.schema.columns record_data)
        ]
      ]

  -- `createIterator`; `none` is a null pointer.
  unfoldable pub create_iterator :
      (Bytes → Option ℕ)
      → (Bytes → Option Schema)
      → Bytes
      → Pool (pages M)
      → Option HeapTableIterator
  unfolding make
  create_iterator file_ids schemas table_name p = elim (file_ids table_name) [
    | none ↦ none
    | some file_id ↦ elim (schemas table_name) [
      | none ↦ none
      | some schema ↦ some (make file_id (M.page_count file_id p.store) schema)
    ]
  ]
