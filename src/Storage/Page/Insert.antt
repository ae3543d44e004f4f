-- ===== src/Storage/Page/Insert.antt =====
-- `Page::insertRecord` of src/storage/page.h.
use native.Mathlib.Numerals.{add-one}
use seeddb.Base.{
  ℕ, ◌+◌, Bytes, ◌-◌, Memory, ◌<◌, ◌≡◌, sub32, write, ◌≤◌, length, take, arith, ◌*◌, if◌then◌else◌,
  length-take_le, read, u16, ◌∙◌, inl, read-write_apart, subst, u32, ◌==◌, encode, inr,
  read-write_self, some, eq-cases, ◌^◌, ◌||◌, ◌⊎◌, ap, ltb, none, le_or_lt, sym, refl,
}
use seeddb.Storage.PageId.{page_size}
use seeddb.Storage.PageHeader.{header_size}
use seeddb.Storage.Page.{
  Page, SlotEntry, read_slot, write_slot, slot_size, get_record, free_space, place_record,
  insert_record,
}
use seeddb.Storage.Page.Invariant.{
  Packed-le, Packed-mono, Packed-live_slot, Packed-ext, IsValid, read_slot-write_apart,
  read_slot-write_slot_self, read_slot-write_slot_ne, read-write_slot_apart, free_space-IsValid,
  get_record_live, get_record_beyond, get_record_deleted,
}

-- What room for a record means, in the numbers of a well-formed page.
record Room (p : Page) (d : Bytes) (size : ℕ) : Type 0 where
  positive : 0 < size
  given : size ≤ length d
  fits : p.header.free_space_offset + slot_size + size ≤ p.header.upper_offset
  lower : p.header.free_space_offset ≡ header_size + slot_size * p.header.slot_count
  upper : p.header.upper_offset ≤ page_size

room :
    (p : Page) (d : Bytes) (size : ℕ)
    → IsValid p
    → 0 < size
    → size ≤ length d
    → size + slot_size ≤ free_space p
    → Room p d size
room p d size v pos given fits =
    let top = Packed-le p.body p.header.slot_count p.header.upper_offset v.packed in
    let free = free_space-IsValid p v in
    record { positive = pos; given = given; fits = omega arith; lower = v.lower; upper = top }

-- The new slot, and the body with the record's bytes in place.
abbrev slot : Page → ℕ → SlotEntry
slot p size = record { offset = p.header.upper_offset - size; size = size }

abbrev filled : Page → Bytes → ℕ → Memory
filled p d size = write p.body (p.header.upper_offset - size - header_size) (take size d)

module _ (p : Page) (d : Bytes) (size : ℕ) (r : Room p d size) where
  -- With room, no word of the computation wraps.
  place_record-plain : place_record p d size ≡ record {
    header = record p.header {
      slot_count = p.header.slot_count + 1;
      free_space_offset = p.header.free_space_offset + slot_size;
      upper_offset = p.header.upper_offset - size;
    };
    body = write_slot (filled p d size) p.header.slot_count (slot p size);
  }
  unfolding place_record write_slot
  place_record-plain =
      let upper : sub32 p.header.upper_offset size ≡ p.header.upper_offset - size = omega arith in
      let dest : sub32 (sub32 p.header.upper_offset size) header_size
          ≡ p.header.upper_offset - size - header_size =
        omega arith in
      let at : sub32 p.header.free_space_offset header_size ≡ p.header.slot_count * slot_size =
        omega arith in
      let off : u16 (sub32 p.header.upper_offset size) ≡ p.header.upper_offset - size =
        omega arith in
      let count : u16 (p.header.slot_count + 1) ≡ p.header.slot_count + 1 = omega arith in
      let lower : u32 (p.header.free_space_offset + slot_size)
          ≡ p.header.free_space_offset + slot_size =
        omega arith in
      λ i. record {
        header = record p.header {
          slot_count = count i;
          free_space_offset = lower i;
          upper_offset = upper i;
        };
        body =
            write (write (write p.body (dest i) (take size d)) (at i) (encode 2 (off i))) (at i + 2)
              (encode 2 size);
      }

  length_given : length (take size d) ≡ size
  length_given = length-take_le size d r.given

  -- The slots below the new one are as they were.
  filled-slot :
      (i : ℕ)
      → i < p.header.slot_count
      → read_slot (write_slot (filled p d size) p.header.slot_count (slot p size)) i
        ≡ read_slot p.body i
  filled-slot i lt =
      read_slot-write_slot_ne _ p.header.slot_count i (slot p size) (omega arith)
      ∙ read_slot-write_apart p.body _ (take size d) i (inl (omega arith))

  new_slot :
      read_slot (write_slot (filled p d size) p.header.slot_count (slot p size)) p.header.slot_count
      ≡ slot p size
  new_slot =
      read_slot-write_slot_self _ p.header.slot_count (slot p size) (omega arith) (omega arith)

  -- So are the bytes of the records above the old upper cursor.
  filled_above :
      (at n : ℕ)
      → p.header.upper_offset ≤ at + header_size
      → read (write_slot (filled p d size) p.header.slot_count (slot p size)) at n
        ≡ read p.body at n
  filled_above at n le =
      read-write_slot_apart _ p.header.slot_count (slot p size) at n (omega arith)
      ∙ read-write_apart p.body _ (take size d) at n (inr (omega (arith, length_given)))

  filled_new :
      read
        (write_slot (filled p d size) p.header.slot_count (slot p size))
        (p.header.upper_offset - size - header_size)
        size
      ≡ take size d
  filled_new =
      read-write_slot_apart _ p.header.slot_count (slot p size) _ size (omega arith)
      ∙ subst
          (λ n. read (filled p d size) (p.header.upper_offset - size - header_size) n ≡ take size d)
          length_given (read-write_self p.body _ (take size d))

  place_record-IsValid : IsValid p → IsValid (place_record p d size)
  place_record-IsValid v = rw place_record-plain (record {
    lower = omega arith;
    room = omega arith;
    packed = rw add-one (
        inr (
          rw new_slot r.positive,
          rw new_slot (omega arith),
          rw new_slot (
              Packed-mono _ p.header.slot_count p.header.upper_offset _ (omega arith) (
                Packed-ext p.body _ p.header.slot_count p.header.upper_offset
                  (λ i lt. sym (filled-slot i lt)) v.packed)),
        ));
  })

  get_record-place_record :
      (j : ℕ)
      → IsValid p
      → get_record (place_record p d size) j
        ≡ (if j == p.header.slot_count then some (take size d) else get_record p j)
  get_record-place_record j v = rw place_record-plain (elim (eq-cases j p.header.slot_count) [
    | inl (same, e) ↦
        rw (e, same)
          (get_record_live _ p.header.slot_count (slot p size) (omega arith) new_slot (omega arith)
              (omega arith) (omega arith)
            ∙ ap some filled_new)
    | inr (other, e) ↦ rw e (elim (le_or_lt p.header.slot_count j) [
      | inl le ↦ get_record_beyond _ j (omega arith) ∙ sym (get_record_beyond p j le)
      | inr lt ↦ elim (eq-cases (read_slot p.body j).size 0) [
        | inl (dead, _) ↦
            get_record_deleted _ j (rw (filled-slot j lt) dead) ∙ sym (get_record_deleted p j dead)
        | inr (live, _) ↦
            let at = Packed-live_slot p.body p.header.slot_count _ j v.packed lt live in
            get_record_live _ j (read_slot p.body j) (omega arith) (filled-slot j lt) live
              (omega arith) (omega arith)
            ∙ ap some (filled_above _ _ (omega arith))
            ∙ sym
                (get_record_live p j (read_slot p.body j) lt refl live (omega arith) (omega arith))
      ]
    ])
  ])

-- `insertRecord` takes a record exactly when there is room for it and a slot, for a size that
-- leaves `needed` within a `uint16_t`.
insert_record-decides :
    (p : Page) (d : Bytes) (size : ℕ)
    → size + slot_size < 2 ^ 16
    → insert_record p d size ≡ (
        if (size == 0) || ltb (free_space p) (size + slot_size)
        then none
        else some (p.header.slot_count, place_record p d size))
unfolding insert_record
insert_record-decides p d size h = ground arith

abbrev pub InsertOutcome : Page → Bytes → ℕ → Type 0
InsertOutcome p d size =
    ((size + slot_size ≤ free_space p)
      × (q : Page) × (insert_record p d size ≡ some (p.header.slot_count, q))
      × IsValid q
      × (free_space q ≡ free_space p - (size + slot_size))
      × ((j : ℕ)
          → get_record q j
            ≡ (if j == p.header.slot_count then some (take size d) else get_record p j)))
    ⊎ ((free_space p < size + slot_size) × (insert_record p d size ≡ none))

-- On a well-formed page, for a record of a positive size below 2^16 - 4 that the caller's buffer
-- holds: `insertRecord` succeeds exactly if the size and a slot entry fit the free space. It then
-- returns the next slot id and a well-formed page, on which that slot reads back the record and
-- every other slot reads as before.
pub insert_record_lem :
    (p : Page) (d : Bytes) (size : ℕ)
    → IsValid p
    → 0 < size
    → size + slot_size < 2 ^ 16
    → size ≤ length d
    → InsertOutcome p d size
insert_record_lem p d size v pos small given = elim (le_or_lt (size + slot_size) (free_space p)) [
  | inl fits ↦
      let r = room p d size v pos given fits in
      inl (
        fits,
        place_record p d size,
        insert_record-decides p d size small ∙ ground arith,
        place_record-IsValid p d size r v,
        omega (
          arith,
          free_space-IsValid p v,
          free_space-IsValid (place_record p d size) (place_record-IsValid p d size r v),
          ap (λ (q : Page). q.header.upper_offset) (place_record-plain p d size r),
          ap (λ (q : Page). q.header.free_space_offset) (place_record-plain p d size r),
        ),
        λ j. get_record-place_record p d size r j v,
      )
  | inr full ↦ inr (full, insert_record-decides p d size small ∙ ground arith)
]
