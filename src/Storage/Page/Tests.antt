-- ===== src/Storage/Page/Tests.antt =====
-- Runs of the slotted page of src/storage/page.h, and its theorems at concrete pages.
use seeddb.Base.{[], ◌∷◌, inl, inr, arith, encode, ◌≡◌, decode, read, none, refl, some, ◌+◌}
use seeddb.Storage.PageId.{PageId}
use seeddb.Storage.PageHeader.{PageHeader, data_page, InRange, default_header}
use seeddb.Storage.Page.{
  Page, new_page, place_record, get_record, delete_record, compact, free_space, read_slot,
  write_slot, repack,
}
use seeddb.Storage.Page.Invariant.{IsValid, new_page-IsValid}
use seeddb.Storage.Page.Insert.{InsertOutcome, insert_record_lem}
use seeddb.Storage.Page.Delete.{DeleteOutcome, delete_record_lem}
use seeddb.Storage.Page.Compact.{CompactOutcome, compact_lem}
use seeddb.Storage.Page.Codec.{CodecOutcome, deserialize-serialize_page}
use seeddb.Storage.Page.Overflow.{WrapOutcome, insert_record_wraps}

abbrev pub some_id : PageId
some_id = record { file_id = 1; page_num = 2 }

-- Over storage that held other bytes.
abbrev pub fresh : Page
fresh = new_page some_id data_page (λ i. 7)

abbrev pub loaded : Page
loaded = place_record (place_record fresh (1 ∷ 2 ∷ 3 ∷ []) 3) (4 ∷ 5 ∷ []) 2

abbrev pub holed : Page
holed = (delete_record loaded 0).1

pub loaded_reads : get_record loaded 0 ≡ some (1 ∷ 2 ∷ 3 ∷ [])
unfolding get_record read_slot place_record new_page encode decode read
loaded_reads = refl

holed_reads : get_record holed 0 ≡ none
unfolding get_record read_slot place_record new_page delete_record write_slot encode decode read
holed_reads = refl

compact_reads : get_record (compact holed) 1 ≡ some (4 ∷ 5 ∷ [])
unfolding get_record read_slot place_record new_page delete_record write_slot compact repack encode
    decode read
compact_reads = refl

compact_frees : free_space (compact holed) ≡ free_space holed + 3
unfolding free_space place_record new_page delete_record read_slot write_slot compact repack encode
    decode read
compact_frees = refl

pub loaded-IsValid : IsValid loaded
unfolding read_slot place_record new_page encode decode read
loaded-IsValid = record {
  lower = omega arith;
  room = omega arith;
  packed = inr (omega arith, omega arith, inr (omega arith, omega arith, omega arith));
}

pub loaded_room : free_space loaded ≡ 4019
unfolding free_space place_record new_page read_slot encode decode read
loaded_room = refl

holed-IsValid : IsValid holed
unfolding read_slot place_record new_page delete_record write_slot encode decode read
holed-IsValid = record {
  lower = omega arith;
  room = omega arith;
  packed = inr (omega arith, omega arith, inl (refl, omega arith));
}

holed-InRange : InRange holed.header
unfolding read_slot place_record new_page delete_record write_slot encode decode read
holed-InRange = omega arith

insert_record_lem_example : InsertOutcome loaded (9 ∷ 8 ∷ []) 2
insert_record_lem_example =
    insert_record_lem loaded (9 ∷ 8 ∷ []) 2 loaded-IsValid (omega arith) (omega arith) (omega arith)

delete_record_lem_example : DeleteOutcome loaded 1
delete_record_lem_example = delete_record_lem loaded 1 loaded-IsValid

compact_lem_example : CompactOutcome holed
compact_lem_example = compact_lem holed holed-IsValid

deserialize-serialize_page_example : CodecOutcome holed fresh (λ i. 1)
deserialize-serialize_page_example =
    deserialize-serialize_page holed fresh (λ i. 1) holed-InRange holed-IsValid

insert_record_wraps_example : WrapOutcome fresh [] 65534
insert_record_wraps_example =
    insert_record_wraps fresh [] 65534 (new_page-IsValid some_id data_page (λ i. 7)).0
      (rw (new_page-IsValid some_id data_page (λ i. 7)).1 (omega arith)) (omega arith) (omega arith)

abbrev leaf : PageHeader
leaf = record default_header { page_id = some_id; lsn = 12; slot_count = 3 }
