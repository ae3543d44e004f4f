-- ===== src/Storage/PageId.antt =====
-- src/storage/page_id.h and tid.h: identifiers of pages and of rows.
use seeddb.Base.{
  ℕ, ◌*◌, ◌+◌, ◌-◌, ◌^◌, ◌<◌, ◌≡◌, ◌↔◌, Bool, true, false, not, ◌&&◌, ltb, ◌==◌, if◌then◌else◌,
  arith, ◌⊎◌, ◌%◌, ◌≤◌,
}

-- `PAGE_SIZE`
abbrev pub page_size : ℕ
page_size = 4096

-- `INVALID_FILE_ID` and `INVALID_PAGE_NUM`, both `UINT32_MAX`.
abbrev pub invalid_file_id : ℕ
invalid_file_id = 2 ^ 32 - 1

abbrev pub invalid_page_num : ℕ
invalid_page_num = 2 ^ 32 - 1

pub record PageId : Type 0 where
  pub file_id : ℕ
  pub page_num : ℕ

-- The default constructor, also `INVALID_PAGE_ID`.
abbrev pub invalid_page_id : PageId
invalid_page_id = record { file_id = invalid_file_id; page_num = invalid_page_num }

unfoldable pub is_valid : PageId → Bool
is_valid p = not (p.file_id == invalid_file_id) && not (p.page_num == invalid_page_num)

-- In `uint64_t`, which a product of a `uint32_t` and the page size cannot leave.
unfoldable pub offset : PageId → ℕ
offset p = (p.page_num * page_size) % 2 ^ 64

-- `operator==`
unfoldable pub same : PageId → PageId → Bool
same a b = a.file_id == b.file_id && a.page_num == b.page_num

-- `operator<`
unfoldable pub less : PageId → PageId → Bool
less a b =
    if not (a.file_id == b.file_id) then ltb a.file_id b.file_id else ltb a.page_num b.page_num

pub record Tid : Type 0 where
  pub file_id : ℕ
  pub page_num : ℕ
  pub slot_id : ℕ

unfoldable pub tid_is_valid : Tid → Bool
tid_is_valid t = not (t.file_id == invalid_file_id) && not (t.page_num == invalid_page_num)

pub same_iff : (a b : PageId) → (same a b ≡ true) ↔ (a ≡ b)
unfolding same
same_iff a b = ground arith

-- `operator<` is a strict total order, with `operator==` as its equality: of two identifiers
-- exactly one is less, or they are equal.
pub less_trichotomy :
    (a b : PageId)
    → ((less a b ≡ true) × (less b a ≡ false) × (same a b ≡ false))
      ⊎ ((less a b ≡ false) × (less b a ≡ true) × (same a b ≡ false))
      ⊎ ((less a b ≡ false) × (less b a ≡ false) × (a ≡ b))
unfolding less same
less_trichotomy a b = ground arith

pub less_trans : (a b c : PageId) → less a b ≡ true → less b c ≡ true → less a c ≡ true
unfolding less
less_trans a b c h k = ground arith

-- Two pages of one file do not overlap: their byte ranges in the file are disjoint.
pub offset_disjoint :
    (a b : PageId)
    → a.page_num < 2 ^ 32
    → b.page_num < 2 ^ 32
    → a.page_num < b.page_num
    → offset a + page_size ≤ offset b
unfolding offset
offset_disjoint a b ha hb h = omega arith
