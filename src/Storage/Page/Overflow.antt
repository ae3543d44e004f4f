-- ===== src/Storage/Page/Overflow.antt =====
-- The `uint16_t` sum of `Page::insertRecord` in src/storage/page.h, where it wraps.
use seeddb.Base.{ℕ, ◌+◌, Bytes, ◌≤◌, ◌^◌, ◌<◌, ◌≡◌, some, arith}
use seeddb.Storage.Page.{
  Page, slot_size, body_size, free_space, insert_record, place_record, body_data_offset,
}
use seeddb.Storage.Page.Invariant.{IsValid, Packed-le}

abbrev pub WrapOutcome : Page → Bytes → ℕ → Type 0
WrapOutcome p d size =
    (insert_record p d size ≡ some (p.header.slot_count, place_record p d size))
    × (body_size < size)
    × (body_size ≤ body_data_offset p size)

-- For the sizes from 65532 to 65535, `size + SLOT_SIZE` wraps below 4: on a well-formed page with
-- three bytes free, `insertRecord` accepts such a record, though no page can hold it, and copies
-- it to an index that lies outside the body.
pub insert_record_wraps :
    (p : Page) (d : Bytes) (size : ℕ)
    → IsValid p
    → 3 ≤ free_space p
    → 2 ^ 16 ≤ size + slot_size
    → size < 2 ^ 16
    → WrapOutcome p d size
unfolding insert_record
insert_record_wraps p d size v free large small =
    let top = Packed-le p.body p.header.slot_count p.header.upper_offset v.packed in
    (ground arith, omega arith, omega arith)
