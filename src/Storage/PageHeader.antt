-- ===== src/Storage/PageHeader.antt =====
-- src/storage/page_header.h: the page header and its 64-byte image.
use seeddb.Base.{
  ℕ, zero, suc, ◌+◌, ◌^◌, ◌<◌, ◌≤◌, ◌≡◌, refl, arith, Memory, write, read, zeros, encode, decode,
  ap, ◌∙◌, ◌⊎◌, length-encode, List, ◌∷◌, [], inl, write_outside, inr, decode-read-write_self,
  read-write-encode_apart, read-ext,
}
use seeddb.Storage.PageId.{PageId, invalid_page_id}

-- `enum class PageType : uint8_t`. A cast from a byte gives the other values too.
pub data PageType : Type 0 where
  data_page index_page overflow_page : PageType
  unnamed : ℕ → PageType

-- `static_cast<uint8_t>(page_type)`
unfoldable pub page_type_byte : PageType → ℕ
page_type_byte data_page = 0
page_type_byte index_page = 1
page_type_byte overflow_page = 2
page_type_byte (unnamed n) = n

-- `static_cast<PageType>(pt)`
unfoldable pub byte_page_type : ℕ → PageType
byte_page_type zero = data_page
byte_page_type (suc zero) = index_page
byte_page_type (suc (suc zero)) = overflow_page
byte_page_type (suc (suc (suc n))) = unnamed (suc (suc (suc n)))

-- `PageHeader::HEADER_SIZE`
abbrev pub header_size : ℕ
header_size = 64

pub record PageHeader : Type 0 where
  pub page_id : PageId
  pub free_space_offset : ℕ
  pub slot_count : ℕ
  pub page_type : PageType
  pub pad0 : ℕ
  pub checksum : ℕ
  pub upper_offset : ℕ
  pub lsn : ℕ
  pub prev_page : PageId
  pub next_page : PageId

-- The default constructor.
abbrev pub default_header : PageHeader
default_header = record {
  page_id = invalid_page_id;
  free_space_offset = 0;
  slot_count = 0;
  page_type = data_page;
  pad0 = 0;
  checksum = 0;
  upper_offset = 0;
  lsn = 0;
  prev_page = invalid_page_id;
  next_page = invalid_page_id;
}

-- One `memcpy(p + at, &v, w)` of a word of `w` bytes.
put : ℕ → ℕ → ℕ → Memory → Memory
put at w v m = write m at (encode w v)

-- One `memcpy(&v, p + at, w)`.
fetch : ℕ → ℕ → Memory → ℕ
fetch at w m = decode (read m at w)

-- A field of the image: where it starts, how many bytes it takes, and its value.
pub record Field : Type 0 where
  pub at : ℕ
  pub width : ℕ
  pub value : ℕ

-- The `memcpy` calls in their order.
puts : List Field → Memory → Memory
puts [] m = m
puts (f ∷ fs) m = puts fs (put f.at f.width f.value m)

abbrev field : ℕ → ℕ → ℕ → Field
field at w v = record { at = at; width = w; value = v }

abbrev fields : PageHeader → List Field
fields h =
    field 0 4 h.page_id.file_id
    ∷ field 4 4 h.page_id.page_num
    ∷ field 8 4 h.free_space_offset
    ∷ field 12 2 h.slot_count
    ∷ field 14 1 (page_type_byte h.page_type)
    ∷ field 16 4 h.checksum
    ∷ field 20 4 h.upper_offset
    ∷ field 24 8 h.lsn
    ∷ field 32 4 h.prev_page.file_id
    ∷ field 36 4 h.prev_page.page_num
    ∷ field 40 4 h.next_page.file_id
    ∷ field 44 4 h.next_page.page_num
    ∷ []

pub serialize : PageHeader → Memory → Memory
serialize h buf = puts (fields h) (write buf 0 (zeros header_size))

-- Everything but the padding byte is overwritten.
pub deserialize : PageHeader → Memory → PageHeader
deserialize h buf = record h {
  page_id = record { file_id = fetch 0 4 buf; page_num = fetch 4 4 buf };
  free_space_offset = fetch 8 4 buf;
  slot_count = fetch 12 2 buf;
  page_type = byte_page_type (fetch 14 1 buf);
  checksum = fetch 16 4 buf;
  upper_offset = fetch 20 4 buf;
  lsn = fetch 24 8 buf;
  prev_page = record { file_id = fetch 32 4 buf; page_num = fetch 36 4 buf };
  next_page = record { file_id = fetch 40 4 buf; page_num = fetch 44 4 buf };
}

-- Each field is in the range of its C++ type. An unnamed type is no named one.
abbrev pub IsPageType : PageType → Type 0
IsPageType (unnamed n) = (2 < n) × (n < 2 ^ 8)
IsPageType _ = Unit

abbrev pub IsPageId : PageId → Type 0
IsPageId p = (p.file_id < 2 ^ 32) × (p.page_num < 2 ^ 32)

pub record InRange (h : PageHeader) : Type 0 where
  pub page_id : IsPageId h.page_id
  pub free_space_offset : h.free_space_offset < 2 ^ 32
  pub slot_count : h.slot_count < 2 ^ 16
  pub page_type : IsPageType h.page_type
  pub checksum : h.checksum < 2 ^ 32
  pub upper_offset : h.upper_offset < 2 ^ 32
  pub lsn : h.lsn < 2 ^ 64
  pub prev_page : IsPageId h.prev_page
  pub next_page : IsPageId h.next_page

page_type_lem : (t : PageType) → IsPageType t → byte_page_type (page_type_byte t) ≡ t
unfolding page_type_byte byte_page_type
page_type_lem data_page h = refl
page_type_lem index_page h = refl
page_type_lem overflow_page h = refl
page_type_lem (unnamed zero) h = absurd (omega arith)
page_type_lem (unnamed (suc zero)) h = absurd (omega arith)
page_type_lem (unnamed (suc (suc zero))) h = absurd (omega arith)
page_type_lem (unnamed (suc (suc (suc n)))) h = refl

page_type_byte-lt : (t : PageType) → IsPageType t → page_type_byte t < 2 ^ 8
unfolding page_type_byte
page_type_byte-lt data_page h = omega arith
page_type_byte-lt index_page h = omega arith
page_type_byte-lt overflow_page h = omega arith
page_type_byte-lt (unnamed n) h = h.1

fetch-put_self : (at w v : ℕ) (m : Memory) → v < 256 ^ w → fetch at w (put at w v m) ≡ v
unfolding fetch put
fetch-put_self at w v m h = decode-read-write_self m at w v h

fetch-put_apart :
    (at w at' w' v : ℕ) (m : Memory)
    → (at + w ≤ at') ⊎ (at' + w' ≤ at)
    → fetch at w (put at' w' v m) ≡ fetch at w m
unfolding fetch put
fetch-put_apart at w at' w' v m h = ap decode (read-write-encode_apart m at' w' v at w h)

-- Fields that follow one another without overlap from `lo` on, within `hi`, with values that fit.
abbrev Ascending : ℕ → ℕ → List Field → Type 0
Ascending lo hi [] = lo ≤ hi
Ascending lo hi (f ∷ fs) =
    (lo ≤ f.at) × (f.value < 256 ^ f.width) × Ascending (f.at + f.width) hi fs

abbrev AllHold : List Field → Memory → Type 0
AllHold [] m = Unit
AllHold (f ∷ fs) m = (fetch f.at f.width m ≡ f.value) × AllHold fs m

fetch-puts :
    (at w lo hi : ℕ) (fs : List Field) (m : Memory)
    → at + w ≤ lo
    → Ascending lo hi fs
    → fetch at w (puts fs m) ≡ fetch at w m
unfolding puts
fetch-puts at w lo hi [] m h a = refl
fetch-puts at w lo hi (f ∷ fs) m h (le, fits, a) =
    fetch-puts at w (f.at + f.width) hi fs (put f.at f.width f.value m) (omega arith) a
    ∙ fetch-put_apart at w f.at f.width f.value m (inl (omega arith))

AllHold-puts :
    (lo hi : ℕ) (fs : List Field) (m : Memory) → Ascending lo hi fs → AllHold fs (puts fs m)
unfolding puts
AllHold-puts lo hi [] m a = tt
AllHold-puts lo hi (f ∷ fs) m (le, fits, a) = (
  fetch-puts f.at f.width (f.at + f.width) hi fs _ (omega arith) a
      ∙ fetch-put_self f.at f.width f.value m fits,
  AllHold-puts (f.at + f.width) hi fs (put f.at f.width f.value m) a,
)

Ascending-le : (lo hi : ℕ) (fs : List Field) → Ascending lo hi fs → lo ≤ hi
Ascending-le lo hi [] a = a
Ascending-le lo hi (f ∷ fs) (le, fits, a) = omega (arith, Ascending-le (f.at + f.width) hi fs a)

-- Nothing is written from `hi` on.
puts_beyond :
    (lo hi : ℕ) (fs : List Field) (m : Memory) (i : ℕ)
    → Ascending lo hi fs
    → hi ≤ i
    → puts fs m i ≡ m i
unfolding puts put
puts_beyond lo hi [] m i a h = refl
puts_beyond lo hi (f ∷ fs) m i (le, fits, a) h =
    puts_beyond (f.at + f.width) hi fs (put f.at f.width f.value m) i a h
    ∙ write_outside m f.at (encode f.width f.value) i
        (inr (omega (arith, length-encode f.width f.value, Ascending-le (f.at + f.width) hi fs a)))

fields-Ascending : (h : PageHeader) → InRange h → Ascending 0 header_size (fields h)
fields-Ascending h r = omega (arith, page_type_byte-lt h.page_type r.page_type)

-- Reading back the image of a header gives the header, whatever was in the buffer and in the
-- header that is overwritten, but for the padding byte, which is not read.
pub deserialize-serialize :
    (h old : PageHeader) (buf : Memory)
    → InRange h
    → deserialize old (serialize h buf) ≡ record h { pad0 = old.pad0 }
unfolding serialize deserialize
deserialize-serialize h old buf r =
    let (fid, e1) =
      AllHold-puts 0 header_size (fields h) (write buf 0 (zeros header_size))
        (fields-Ascending h r) in
    let (num, e2) = e1 in
    let (fso, e3) = e2 in
    let (count, e4) = e3 in
    let (kind, e5) = e4 in
    let (sum, e6) = e5 in
    let (upper, e7) = e6 in
    let (log, e8) = e7 in
    let (prev_fid, e9) = e8 in
    let (prev_num, e10) = e9 in
    let (next_fid, e11) = e10 in
    let (next_num, _) = e11 in
    λ i. record {
      page_id = record { file_id = fid i; page_num = num i };
      free_space_offset = fso i;
      slot_count = count i;
      page_type = (ap byte_page_type kind ∙ page_type_lem h.page_type r.page_type) i;
      pad0 = old.pad0;
      checksum = sum i;
      upper_offset = upper i;
      lsn = log i;
      prev_page = record { file_id = prev_fid i; page_num = prev_num i };
      next_page = record { file_id = next_fid i; page_num = next_num i };
    }

-- A header image takes the first 64 bytes of a buffer and no other.
pub serialize_beyond :
    (h : PageHeader) (buf : Memory) (i : ℕ)
    → InRange h
    → header_size ≤ i
    → serialize h buf i ≡ buf i
unfolding serialize
serialize_beyond h buf i r le =
    puts_beyond 0 header_size (fields h) _ i (fields-Ascending h r) le
    ∙ write_outside buf 0 (zeros header_size) i (inr (omega arith))

fetch-ext :
    (at w : ℕ) (m m' : Memory)
    → at + w ≤ header_size
    → ((i : ℕ) → i < header_size → m i ≡ m' i)
    → fetch at w m ≡ fetch at w m'
unfolding fetch
fetch-ext at w m m' le same = ap decode (read-ext m m' at w (λ i _ lt. same i (omega arith)))

-- Only the first 64 bytes of the buffer are read.
pub deserialize-ext :
    (old : PageHeader) (m m' : Memory)
    → ((i : ℕ) → i < header_size → m i ≡ m' i)
    → deserialize old m ≡ deserialize old m'
unfolding deserialize
deserialize-ext old m m' same =
    let at = λ (n w : ℕ) (le : n + w ≤ header_size). fetch-ext n w m m' le same in
    λ i. record old {
      page_id = record { file_id = at 0 4 (omega arith) i; page_num = at 4 4 (omega arith) i };
      free_space_offset = at 8 4 (omega arith) i;
      slot_count = at 12 2 (omega arith) i;
      page_type = byte_page_type (at 14 1 (omega arith) i);
      checksum = at 16 4 (omega arith) i;
      upper_offset = at 20 4 (omega arith) i;
      lsn = at 24 8 (omega arith) i;
      prev_page = record { file_id = at 32 4 (omega arith) i; page_num = at 36 4 (omega arith) i };
      next_page = record { file_id = at 40 4 (omega arith) i; page_num = at 44 4 (omega arith) i };
    }
