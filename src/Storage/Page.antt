-- ===== src/Storage/Page.antt =====
-- src/storage/page.h: the slotted page. The slot directory grows upward from the header, the
-- record data downward from the page's end. Its laws are in the child modules.
pub mod Invariant
pub mod Insert
pub mod Delete
mod Repack
pub mod Compact
pub mod Update
pub mod Codec
pub mod Overflow
pub mod Tests
use seeddb.Base.{
  zero, suc, ◌+◌, Bytes, Memory, ℕ, Bool, Option, if◌then◌else◌, sub32, suc, write, ◌*◌, ◌-◌,
  decode, encode, leb, read, u16, false, none, not, take, zeros, ◌==◌, ltb, some, true, u32,
}
use seeddb.Storage.PageId.{PageId, page_size, invalid_page_id}
use seeddb.Storage.PageHeader.{PageHeader, PageType, default_header, header_size}
use seeddb.Storage.PageHeader

-- `Page::SLOT_SIZE`
abbrev pub slot_size : ℕ
slot_size = 4

-- `sizeof(body_)`
abbrev pub body_size : ℕ
body_size = page_size - header_size

pub record SlotEntry : Type 0 where
  pub offset : ℕ
  pub size : ℕ

-- `body` holds the bytes of the page behind the header.
pub record Page : Type 0 where
  pub header : PageHeader
  pub body : Memory

-- `Page()`, over the raw storage `m` of the array.
pub empty_page : Memory → Page
empty_page m = record {
  header = record default_header { free_space_offset = header_size; upper_offset = page_size };
  body = write m 0 (zeros body_size);
}

-- `Page(id, type)`
pub new_page : PageId → PageType → Memory → Page
new_page id type m = record {
  header = record default_header {
    page_id = id;
    page_type = type;
    slot_count = 0;
    free_space_offset = header_size;
    upper_offset = page_size;
    lsn = 0;
    checksum = 0;
    prev_page = invalid_page_id;
    next_page = invalid_page_id;
  };
  body = write m 0 (zeros body_size);
}

-- `freeSpace`
pub free_space : Page → ℕ
free_space p =
    let lo = p.header.free_space_offset in
    let up = p.header.upper_offset in if leb up lo then 0 else u16 (up - lo)

-- `readSlot`
pub read_slot : Memory → ℕ → SlotEntry
read_slot body slot_id =
    let body_offset = slot_id * slot_size in
    record {
      offset = decode (read body body_offset 2);
      size = decode (read body (body_offset + 2) 2);
    }

-- `writeSlot`
pub write_slot : Memory → ℕ → SlotEntry → Memory
write_slot body slot_id entry =
    let body_offset = slot_id * slot_size in
    write (write body body_offset (encode 2 entry.offset)) (body_offset + 2) (encode 2 entry.size)

-- The index in the body at which `insertRecord` puts the record, in `uint32_t` arithmetic.
abbrev pub body_data_offset : Page → ℕ → ℕ
body_data_offset p size = sub32 (sub32 p.header.upper_offset size) header_size

-- What `insertRecord` does once it has found room.
pub place_record : Page → Bytes → ℕ → Page
place_record p record_data size =
    let new_upper = sub32 p.header.upper_offset size in
    let body1 = write p.body (body_data_offset p size) (take size record_data) in
    let slot_body_offset = sub32 p.header.free_space_offset header_size in
    let body2 = write body1 slot_body_offset (encode 2 (u16 new_upper)) in
    let body3 = write body2 (slot_body_offset + 2) (encode 2 size) in
    record {
      header = record p.header {
        slot_count = u16 (p.header.slot_count + 1);
        free_space_offset = u32 (p.header.free_space_offset + slot_size);
        upper_offset = new_upper;
      };
      body = body3;
    }

-- `insertRecord`: the slot id and the new page, or `none` with the page as it was. `needed` is a
-- `uint16_t`, and wraps.
pub insert_record : Page → Bytes → ℕ → Option (ℕ × Page)
insert_record p record_data size =
    let needed = u16 (size + slot_size) in
    if size == 0
    then none
    else if ltb (free_space p) needed
    then none
    else some (p.header.slot_count, place_record p record_data size)

-- `getRecord`; the pointer and the size as the bytes that they cover.
pub get_record : Page → ℕ → Option Bytes
get_record p slot_id =
    let entry = read_slot p.body slot_id in
    if leb p.header.slot_count slot_id
    then none
    else if entry.size == 0
    then none
    else some (read p.body (sub32 entry.offset header_size) entry.size)

-- `deleteRecord`
pub delete_record : Page → ℕ → Bool × Page
delete_record p slot_id =
    let entry = read_slot p.body slot_id in
    if leb p.header.slot_count slot_id
    then (false, p)
    else if entry.size == 0
    then (false, p)
    else (true, record p { body = write_slot p.body slot_id (record entry { size = 0 }) })

-- The loop of `compact` over the live slots from `i` on, `left` slots in all. Slots that are not
-- live are not in `live`, and stay. Each record is copied from the snapshot of the body.
pub repack : Memory → ℕ → ℕ → Memory → ℕ → Memory × ℕ
repack temp_body i zero body upper = (body, upper)
repack temp_body i (suc left) body upper =
    let entry = read_slot temp_body i in
    let new_upper = sub32 upper entry.size in
    let src_body = sub32 entry.offset header_size in
    let dest_body = sub32 new_upper header_size in
    let moved = write body dest_body (read temp_body src_body entry.size) in
    let linked = write_slot moved i (record { offset = u16 new_upper; size = entry.size }) in
    let live = not (entry.size == 0) in
    repack temp_body (i + 1) left (if live then linked else body)
      (if live then new_upper else upper)

-- `compact`
pub compact : Page → Page
compact p =
    let (body, upper) = repack p.body 0 p.header.slot_count p.body page_size in
    record { header = record p.header { upper_offset = upper }; body = body }

-- `Page::serialize`
pub serialize : Page → Memory → Memory
serialize p buf = write (PageHeader.serialize p.header buf) header_size (read p.body 0 body_size)

-- `Page::deserialize`
pub deserialize : Page → Memory → Page
deserialize p buf = record {
  header = PageHeader.deserialize p.header buf;
  body = write p.body 0 (read buf header_size body_size);
}
