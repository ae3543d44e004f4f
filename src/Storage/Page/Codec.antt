-- ===== src/Storage/Page/Codec.antt =====
-- `Page::serialize` and `Page::deserialize` of src/storage/page.h.
use seeddb.Base.{
  ℕ, ◌+◌, Memory, ◌<◌, ◌≡◌, write, read, length-read, write_inside, arith, ◌∙◌, get_or-read, ap,
  get_or, ◌≤◌, decode, le_or_lt, read-ext, write_outside, inl, ◌*◌, sym, inr, eq-cases, some, refl,
}
use seeddb.Storage.PageHeader.{header_size, InRange, deserialize-serialize, deserialize-ext}
use seeddb.Storage.PageHeader
use seeddb.Storage.Page.Invariant.{
  IsValid, Packed-live_slot, Packed-le, get_record_beyond, get_record_deleted, get_record_live,
}
use seeddb.Storage.Page.{
  Page, body_size, serialize, deserialize, get_record, read_slot, PageHeader, slot_size,
}

-- Pages with the same slot count and the same bytes hold the same records.
module _ (q p : Page) (count : q.header.slot_count ≡ p.header.slot_count) (v : IsValid p)
    (same : (i : ℕ) → i < body_size → q.body i ≡ p.body i) where
  same_read : (at n : ℕ) → at + n ≤ body_size → read q.body at n ≡ read p.body at n
  same_read at n le = read-ext q.body p.body at n (λ i _ lt. same i (omega arith))

  same_slot : (j : ℕ) → j < p.header.slot_count → read_slot q.body j ≡ read_slot p.body j
  unfolding read_slot
  same_slot j lt =
      let lower = v.lower in
      let room = v.room in
      let top = Packed-le p.body p.header.slot_count p.header.upper_offset v.packed in
      λ i. record {
        offset = decode (same_read (j * slot_size) 2 (omega arith) i);
        size = decode (same_read (j * slot_size + 2) 2 (omega arith) i);
      }

  same_records : (j : ℕ) → get_record q j ≡ get_record p j
  same_records j = elim (le_or_lt p.header.slot_count j) [
    | inl le ↦ get_record_beyond q j (rw count le) ∙ sym (get_record_beyond p j le)
    | inr lt ↦ elim (eq-cases (read_slot p.body j).size 0) [
      | inl (dead, _) ↦
          get_record_deleted q j (rw (same_slot j lt) dead) ∙ sym (get_record_deleted p j dead)
      | inr (live, _) ↦
          let at = Packed-live_slot p.body p.header.slot_count _ j v.packed lt live in
          let lower = v.lower in
          let room = v.room in
          get_record_live q j (read_slot p.body j) (rw count lt) (same_slot j lt) live (omega arith)
            (omega arith)
          ∙ ap some (same_read _ _ (omega arith))
          ∙ sym (get_record_live p j (read_slot p.body j) lt refl live (omega arith) (omega arith))
    ]
  ]

module _ (p old : Page) (buf : Memory) (r : InRange p.header) where
  -- The body that is read back.
  body-codec : (i : ℕ) → i < body_size → (deserialize old (serialize p buf)).body i ≡ p.body i
  unfolding serialize deserialize
  body-codec i lt =
      let image = write (PageHeader.serialize p.header buf) header_size (read p.body 0 body_size) in
      let n = length-read image header_size body_size in
      let m = length-read p.body 0 body_size in
      write_inside old.body 0 (read image header_size body_size) i (omega arith) (omega arith)
      ∙ ap (λ k. get_or (read image header_size body_size) k 0) (omega arith)
      ∙ get_or-read image header_size body_size i lt
      ∙ write_inside (PageHeader.serialize p.header buf) header_size (read p.body 0 body_size)
          (header_size + i) (omega arith) (omega arith)
      ∙ ap (λ k. get_or (read p.body 0 body_size) k 0) (omega arith)
      ∙ get_or-read p.body 0 body_size i lt
      ∙ ap p.body (omega arith)

abbrev pub CodecOutcome : Page → Page → Memory → Type 0
CodecOutcome p old buf =
    let q = deserialize old (serialize p buf) in
    (q.header ≡ record p.header { pad0 = old.header.pad0 })
    × ((i : ℕ) → i < body_size → q.body i ≡ p.body i)
    × ((j : ℕ) → get_record q j ≡ get_record p j)

-- A page read back from the image of a well-formed page whose header fields fit their types: the
-- header is the same but for the padding byte, the body is the same byte for byte, and so every
-- slot reads back what it held, whatever page and buffer are overwritten.
pub deserialize-serialize_page :
    (p old : Page) (buf : Memory) → InRange p.header → IsValid p → CodecOutcome p old buf
unfolding serialize deserialize
deserialize-serialize_page p old buf r v = (
  header,
  body-codec p old buf r,
  same_records _ p (ap (λ (h : PageHeader). h.slot_count) header) v (body-codec p old buf r),
)
  where
    image : Memory
    image = PageHeader.serialize p.header buf

    header : (deserialize old (serialize p buf)).header ≡ record p.header { pad0 = old.header.pad0 }
    header =
        deserialize-ext old.header (write image header_size (read p.body 0 body_size)) image
          (λ i lt. write_outside image header_size (read p.body 0 body_size) i (inl lt))
        ∙ deserialize-serialize p.header old.header buf r
