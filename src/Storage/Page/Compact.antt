-- ===== src/Storage/Page/Compact.antt =====
-- `Page::compact` of src/storage/page.h.
use seeddb.Base.{
  ℕ, ◌+◌, arith, ◌≡◌, le_or_lt, ◌*◌, inl, ◌≤◌, ◌∙◌, sym, inr, eq-cases, ap, some, read, refl,
}
use seeddb.Storage.Page.{Page, read_slot, slot_size, body_size, get_record, free_space, compact}
use seeddb.Storage.Page.Invariant.{
  Packed-live_slot, IsValid, free_space-IsValid, get_record_beyond, get_record_deleted,
  get_record_live,
}
use seeddb.Storage.Page.Repack.{live_bytes, Packed-le_floor, compacted}

module _ (p : Page) (v : IsValid p) where
  compact-IsValid : IsValid (compact p)
  unfolding compact
  compact-IsValid =
      let r = compacted p v in
      let above = r.above in
      let low = Packed-le_floor p.body p.header.slot_count p.header.upper_offset v.packed in
      let room = v.room in record { lower = v.lower; room = omega arith; packed = r.packed }

  get_record-compact : (j : ℕ) → get_record (compact p) j ≡ get_record p j
  unfolding compact
  get_record-compact j =
      let r = compacted p v in
      elim (le_or_lt p.header.slot_count j) [
        | inl le ↦ get_record_beyond _ j le ∙ sym (get_record_beyond p j le)
        | inr lt ↦ elim (eq-cases (read_slot p.body j).size 0) [
          | inl (dead, _) ↦
              get_record_deleted _ j (r.sizes j lt ∙ dead) ∙ sym (get_record_deleted p j dead)
          | inr (live, _) ↦
              let lower = v.lower in
              let room = v.room in
              let above = r.above in
              let low = Packed-le_floor p.body p.header.slot_count p.header.upper_offset v.packed in
              let same = r.sizes j lt in
              let old = Packed-live_slot p.body p.header.slot_count _ j v.packed lt live in
              let new =
                Packed-live_slot _ p.header.slot_count _ j r.packed lt (λ z. live (sym same ∙ z)) in
              get_record_live _ j _ lt refl (λ z. live (sym same ∙ z)) (omega arith) (omega arith)
              ∙ ap some (ap (read _ _) same ∙ r.kept j lt live)
              ∙ sym (
                  get_record_live p j (read_slot p.body j) lt refl live (omega arith) (omega arith))
        ]
      ]

abbrev pub CompactOutcome : Page → Type 0
CompactOutcome p =
    ((j : ℕ) → get_record (compact p) j ≡ get_record p j)
    × IsValid (compact p)
    × (free_space (compact p)
          + slot_size * p.header.slot_count
          + live_bytes p.body p.header.slot_count
        ≡ body_size)
    × (free_space p ≤ free_space (compact p))

-- On a well-formed page `compact` keeps what every slot reads, deleted slots included, leaves the
-- page well-formed, and leaves as free space all of the body but the slot directory and the bytes
-- of the live records; that is never less than before.
pub compact_lem : (p : Page) → IsValid p → CompactOutcome p
unfolding compact
compact_lem p v =
    let r = compacted p v in
    let valid = compact-IsValid p v in
    let above = r.above in
    let total = r.total in
    let lower = v.lower in
    let room = v.room in
    let low = Packed-le_floor p.body p.header.slot_count p.header.upper_offset v.packed in
    let free = free_space-IsValid (compact p) valid in
    let old = free_space-IsValid p v in (get_record-compact p v, valid, omega arith, omega arith)
