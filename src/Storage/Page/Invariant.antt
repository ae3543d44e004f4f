-- ===== src/Storage/Page/Invariant.antt =====
-- The well-formedness of a slotted page (src/storage/page.h), and what writes leave alone.
use seeddb.Base.{
  zero, suc, ℕ, ◌+◌, ◌*◌, ◌≡◌, Memory, ◌≤◌, Bytes, arith, inl, read, ◌<◌, ◌≢◌, ◌⊎◌, eq-cases, inr,
  length, ◌^◌, ap, write, decode, ◌∙◌, read-write_apart, encode, read-write-encode_apart,
  decode-read-write_self, length-encode, ◌-◌, none, some, sub32, le→leb_false, ≢→==_false, refl,
}
use seeddb.Storage.PageId.{page_size}
use seeddb.Storage.PageHeader.{header_size}
use seeddb.Storage.Page.{
  Page, SlotEntry, read_slot, write_slot, slot_size, free_space, new_page, PageId, PageType,
  body_size, get_record,
}

-- The records of the first `k` slots lie one below the other, the latest lowest, between `u` and
-- the page's end. A deleted slot takes no room.
abbrev pub Packed : Memory → ℕ → ℕ → Type 0
Packed body zero u = u ≤ page_size
Packed body (suc k) u =
    (((read_slot body k).size ≡ 0) × Packed body k u)
    ⊎ ((0 < (read_slot body k).size)
        × (u ≤ (read_slot body k).offset)
        × Packed body k ((read_slot body k).offset + (read_slot body k).size))

pub record IsValid (p : Page) : Type 0 where
  pub lower : p.header.free_space_offset ≡ header_size + slot_size * p.header.slot_count
  pub room : p.header.free_space_offset ≤ p.header.upper_offset
  pub packed : Packed p.body p.header.slot_count p.header.upper_offset

pub Packed-le : (b : Memory) (k u : ℕ) → Packed b k u → u ≤ page_size
Packed-le b zero u h = h
Packed-le b (suc k) u (inl (e, h)) = Packed-le b k u h
Packed-le b (suc k) u (inr (pos, le, h)) =
    omega (arith, Packed-le b k ((read_slot b k).offset + (read_slot b k).size) h)

pub Packed-mono : (b : Memory) (k u u' : ℕ) → u' ≤ u → Packed b k u → Packed b k u'
Packed-mono b zero u u' le h = omega arith
Packed-mono b (suc k) u u' le (inl (e, h)) = inl (e, Packed-mono b k u u' le h)
Packed-mono b (suc k) u u' le (inr (pos, up, h)) = inr (pos, omega arith, h)

-- A live slot's record lies between `u` and the page's end.
pub Packed-live_slot :
    (b : Memory) (k u i : ℕ)
    → Packed b k u
    → i < k
    → (read_slot b i).size ≢ 0
    → (u ≤ (read_slot b i).offset) × ((read_slot b i).offset + (read_slot b i).size ≤ page_size)
Packed-live_slot b zero u i h lt ne = elim lt [ ]
Packed-live_slot b (suc k) u i (inl (e, h)) lt ne = elim (eq-cases i k) [
  | inl (same, _) ↦ absurd (ne (ap (λ n. (read_slot b n).size) same ∙ e))
  | inr (other, _) ↦ Packed-live_slot b k u i h (omega arith) ne
]
Packed-live_slot b (suc k) u i (inr (pos, up, h)) lt ne = elim (eq-cases i k) [
  | inl (same, _) ↦ rw same (up, Packed-le b k _ h)
  | inr (other, _) ↦
      let below = Packed-live_slot b k _ i h (omega arith) ne in (omega arith, below.1)
]

pub Packed-ext :
    (b b' : Memory) (k u : ℕ)
    → ((i : ℕ) → i < k → read_slot b i ≡ read_slot b' i)
    → Packed b k u
    → Packed b' k u
Packed-ext b b' zero u same h = h
Packed-ext b b' (suc k) u same (inl (e, r)) =
    inl (rw (← same k (omega arith)) e, Packed-ext b b' k u (λ i lt. same i (omega arith)) r)
Packed-ext b b' (suc k) u same (inr (pos, up, r)) =
    let here = same k (omega arith) in
    inr (
      rw (← here) pos,
      rw (← here) up,
      rw (← here) (Packed-ext b b' k _ (λ i lt. same i (omega arith)) r),
    )

pub read_slot-write_apart :
    (b : Memory) (off : ℕ) (bs : Bytes) (i : ℕ)
    → (slot_size * i + slot_size ≤ off) ⊎ (off + length bs ≤ slot_size * i)
    → read_slot (write b off bs) i ≡ read_slot b i
unfolding read_slot
read_slot-write_apart b off bs i h = λ j. record {
  offset = decode (read-write_apart b off bs (i * slot_size) 2 (grind arith) j);
  size = decode (read-write_apart b off bs (i * slot_size + 2) 2 (grind arith) j);
}

pub read_slot-write_slot_self :
    (b : Memory) (i : ℕ) (e : SlotEntry)
    → e.offset < 2 ^ 16
    → e.size < 2 ^ 16
    → read_slot (write_slot b i e) i ≡ e
unfolding read_slot write_slot
read_slot-write_slot_self b i e ho hs =
    let first = write b (i * slot_size) (encode 2 e.offset) in
    let offset =
      ap decode (
        read-write-encode_apart first (i * slot_size + 2) 2 e.size (i * slot_size) 2
          (inl (omega arith)))
      ∙ decode-read-write_self b (i * slot_size) 2 e.offset ho in
    let size = decode-read-write_self first (i * slot_size + 2) 2 e.size hs in
    λ j. record { offset = offset j; size = size j }

pub read_slot-write_slot_ne :
    (b : Memory) (i j : ℕ) (e : SlotEntry) → i ≢ j → read_slot (write_slot b i e) j ≡ read_slot b j
unfolding write_slot
read_slot-write_slot_ne b i j e ne =
    read_slot-write_apart _ (i * slot_size + 2) (encode 2 e.size) j (rw length-encode (grind arith))
    ∙ read_slot-write_apart b (i * slot_size) (encode 2 e.offset) j (rw length-encode (grind arith))

-- A slot write does not touch the bytes of other ranges.
pub read-write_slot_apart :
    (b : Memory) (i : ℕ) (e : SlotEntry) (at n : ℕ)
    → slot_size * i + slot_size ≤ at
    → read (write_slot b i e) at n ≡ read b at n
unfolding write_slot
read-write_slot_apart b i e at n h =
    read-write-encode_apart _ (i * slot_size + 2) 2 e.size at n (inr (omega arith))
    ∙ read-write-encode_apart b (i * slot_size) 2 e.offset at n (inr (omega arith))

pub free_space-IsValid :
    (p : Page) → IsValid p → free_space p ≡ p.header.upper_offset - p.header.free_space_offset
unfolding free_space
free_space-IsValid p v =
    ground (arith, Packed-le p.body p.header.slot_count p.header.upper_offset v.packed)

-- A fresh page is well-formed, and all behind its header is free.
pub new_page-IsValid :
    (id : PageId) (type : PageType) (m : Memory)
    → IsValid (new_page id type m) × (free_space (new_page id type m) ≡ body_size)
unfolding new_page free_space
new_page-IsValid id type m = (omega arith, omega arith)

-- The three outcomes of a lookup.
pub get_record_beyond : (p : Page) (j : ℕ) → p.header.slot_count ≤ j → get_record p j ≡ none
unfolding get_record
get_record_beyond p j h = ground arith

pub get_record_deleted : (p : Page) (j : ℕ) → (read_slot p.body j).size ≡ 0 → get_record p j ≡ none
unfolding get_record
get_record_deleted p j h = ground arith

pub get_record_live :
    (p : Page) (j : ℕ) (e : SlotEntry)
    → j < p.header.slot_count
    → read_slot p.body j ≡ e
    → e.size ≢ 0
    → header_size ≤ e.offset
    → e.offset ≤ page_size
    → get_record p j ≡ some (read p.body (e.offset - header_size) e.size)
unfolding get_record
get_record_live p j e lt same ne lo hi =
    rw same (rw (le→leb_false _ j lt, ≢→==_false e.size 0 ne, plain) refl)
  where
    plain : sub32 e.offset header_size ≡ e.offset - header_size
    plain = omega arith
