-- ===== src/Storage/RowStore.antt =====
-- src/storage/storage_manager.cpp: insertRow, updateRow and deleteRow over the buffer pool. The page
-- manager is a parameter; a pointer to a cached page is its frame. An outer `none` is a step through
-- a null link of the replacer, or a row with fewer values than the schema has columns.
pub mod Replace
mod Tests
use seeddb.Base.{
  ℕ, zero, suc, ◌+◌, ◌-◌, Bool, true, false, not, List, [], ◌∷◌, Option, none, some, Bytes, length,
  leb, ltb, ◌==◌, if◌then◌else◌,
}
use mathlib.Core.Option
use seeddb.Storage.PageId.{PageId, Tid}
use seeddb.Storage.Page.{
  Page, insert_record, get_record, delete_record, compact, free_space, slot_size,
}
use seeddb.Storage.Schema.{Row, Schema}
use seeddb.Storage.RowSerializer
use seeddb.Storage.BufferPool.{PageStore, Pool, fetch_page, new_page, set_frame}
use seeddb.Storage.BufferPool.Pins.{unpin_page}

-- `PageManager`, with the number of pages of a file.
pub record PageManager : Type 1 where
  pub Store : Type 0
  pub fresh : PageId → Page
  pub allocate_page : ℕ → Store → PageId × Store
  pub get_page : PageId → Store → Option Page
  pub write_page : PageId → Page → Store → Bool × Store
  pub page_count : ℕ → Store → ℕ

abbrev pub pages : PageManager → PageStore
pages M = record {
  Store = M.Store;
  Content = Page;
  fresh = M.fresh;
  allocate_page = M.allocate_page;
  get_page = M.get_page;
  write_page = M.write_page;
}

-- The same-page update of `updateRow`: the answer and the page after.
unfoldable pub replace_record : Page → ℕ → Bytes → ℕ → Bool × Page
replace_record page slot_id serialized row_size =
    let freed = compact (delete_record page slot_id).1 in
    elim (insert_record freed serialized row_size) [
      | none ↦ (false, freed)
      | some (slot, q) ↦ (true, q)
    ]

module _ (M : PageManager) where
  -- What a call through the page pointer leaves in its frame.
  abbrev set_page : ℕ → Page → Pool (pages M) → Pool (pages M)
  set_page fid page p = record p {
    frames = set_frame p.frames fid (record (p.frames fid) { page = page });
  }

  abbrev unpinned : PageId → Bool → Pool (pages M) → Pool (pages M)
  unpinned pid is_dirty p = (unpin_page (pages M) pid is_dirty p).1

  -- The attempt of `insertRowInternal` on the last page, when it has been fetched.
  unfoldable pub insert_into_page : PageId → Bytes → ℕ → ℕ → Pool (pages M) → Bool × Pool (pages M)
  unfolding unpin_page
  insert_into_page pid serialized row_size fid p =
      let page = (p.frames fid).page in
      if leb (row_size + slot_size) (free_space page)
      then elim (insert_record page serialized row_size) [
        | none ↦ (false, unpinned pid false p)
        | some (slot, q) ↦ (true, unpinned pid true (set_page fid q p))
      ]
      else (false, unpinned pid false p)

  -- The part of `insertRowInternal` for the last existing page.
  unfoldable pub insert_last : ℕ → Bytes → ℕ → Pool (pages M) → Option (Bool × Pool (pages M))
  unfolding fetch_page insert_into_page
  insert_last file_id serialized row_size p =
      let num_pages = M.page_count file_id p.store in
      let last_pid : PageId = record { file_id = file_id; page_num = num_pages - 1 } in
      if num_pages == 0 then some (false, p) else elim (fetch_page (pages M) last_pid p) [
        | none ↦ none
        | some (none, q) ↦ some (false, q)
        | some (some fid, q) ↦ some (insert_into_page last_pid serialized row_size fid q)
      ]

  -- The part of `insertRowInternal` for a fresh page.
  unfoldable pub insert_fresh : ℕ → Bytes → ℕ → Pool (pages M) → Option (Bool × Pool (pages M))
  unfolding new_page unpin_page
  insert_fresh file_id serialized row_size p = elim (new_page (pages M) file_id p) [
    | none ↦ none
    | some (none, q) ↦ some (false, q)
    | some (some (new_pid, fid), q) ↦ elim (insert_record (q.frames fid).page serialized row_size) [
      | none ↦ some (false, unpinned new_pid false q)
      | some (slot, page) ↦ some (true, unpinned new_pid true (set_page fid page q))
    ]
  ]

  -- `insertRowInternal`
  unfoldable pub insert_row_internal :
      ℕ → Bytes → ℕ → Pool (pages M) → Option (Bool × Pool (pages M))
  unfolding insert_last insert_fresh
  insert_row_internal file_id serialized row_size p =
      elim (insert_last file_id serialized row_size p) [
        | none ↦ none
        | some (true, q) ↦ some (true, q)
        | some (false, q) ↦ insert_fresh file_id serialized row_size q
      ]

  -- `insertRow`; `file_ids` is the map `file_ids_`.
  unfoldable pub insert_row :
      (Bytes → Option ℕ) → Bytes → Row → Schema → Pool (pages M) → Option (Bool × Pool (pages M))
  unfolding insert_row_internal
  insert_row file_ids table_name row schema p = elim (file_ids table_name) [
    | none ↦ some (false, p)
    | some file_id ↦ elim (RowSerializer.serialize schema.columns row) [
      | none ↦ none
      | some serialized ↦
          if ltb 65535 (length serialized)
          then some (false, p)
          else insert_row_internal file_id serialized (length serialized) p
    ]
  ]

  -- The end of `updateRow`, once the row is on another page.
  unfoldable pub delete_old : Tid → PageId → Pool (pages M) → Option (Bool × Pool (pages M))
  unfolding fetch_page unpin_page
  delete_old tid pid p = elim (fetch_page (pages M) pid p) [
    | none ↦ none
    | some (none, q) ↦ some (true, q)
    | some (some fid, q) ↦
        some (
          true,
          unpinned pid true (set_page fid (delete_record (q.frames fid).page tid.slot_id).1 q),
        )
  ]

  -- The end of `updateRow` for a row that does not fit its page.
  unfoldable pub move_row : Tid → PageId → Bytes → Pool (pages M) → Option (Bool × Pool (pages M))
  unfolding insert_row_internal delete_old
  move_row tid pid serialized p =
      elim (insert_row_internal tid.file_id serialized (length serialized) p) [
        | none ↦ none
        | some (false, q) ↦ some (false, q)
        | some (true, q) ↦ delete_old tid pid q
      ]

  -- `updateRow` on the fetched page.
  unfoldable pub update_on_page :
      Tid → PageId → Bytes → ℕ → Pool (pages M) → Option (Bool × Pool (pages M))
  unfolding replace_record move_row unpin_page
  update_on_page tid pid serialized fid p =
      let page = (p.frames fid).page in
      let row_size = length serialized in
      elim (get_record page tid.slot_id) [
        | none ↦ some (false, unpinned pid false p)
        | some old ↦
            if leb (row_size + slot_size) (free_space page + length old)
            then (let (inserted, q) = replace_record page tid.slot_id serialized row_size in
                some (inserted, unpinned pid true (set_page fid q p)))
            else move_row tid pid serialized (unpinned pid false p)
      ]

  -- `updateRow`
  unfoldable pub update_row : Tid → Row → Schema → Pool (pages M) → Option (Bool × Pool (pages M))
  unfolding fetch_page update_on_page
  update_row tid new_row schema p =
      let pid : PageId = record { file_id = tid.file_id; page_num = tid.page_num } in
      elim (RowSerializer.serialize schema.columns new_row) [
        | none ↦ none
        | some serialized ↦
            if ltb 65535 (length serialized)
            then some (false, p)
            else elim (fetch_page (pages M) pid p) [
              | none ↦ none
              | some (none, q) ↦ some (false, q)
              | some (some fid, q) ↦ update_on_page tid pid serialized fid q
            ]
      ]

  -- `deleteRow`
  unfoldable pub delete_row : Tid → Pool (pages M) → Option (Bool × Pool (pages M))
  unfolding fetch_page unpin_page
  delete_row tid p =
      let pid : PageId = record { file_id = tid.file_id; page_num = tid.page_num } in
      elim (fetch_page (pages M) pid p) [
        | none ↦ none
        | some (none, q) ↦ some (false, q)
        | some (some fid, q) ↦ some (
          true,
          unpinned pid true (set_page fid (delete_record (q.frames fid).page tid.slot_id).1 q),
        )
      ]
