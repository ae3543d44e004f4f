-- ===== src/Storage/RowStore/Replace.antt =====
-- The same-page update of `StorageManager::updateRow` in src/storage/storage_manager.cpp.
use seeddb.Base.{
  ℕ, ◌+◌, true, none, some, Bytes, length, take, ◌≡◌, if◌then◌else◌, ◌<◌, ◌==◌, ◌^◌, ◌≤◌, arith,
  inr, inl, refl, ap, sym, append-nil, ◌∙◌, take-append_length, [],
}
use seeddb.Storage.Page.{Page, free_space, slot_size, get_record, delete_record, compact}
use seeddb.Storage.Page.Invariant.{IsValid}
use seeddb.Storage.Page.Insert.{insert_record_lem}
use seeddb.Storage.Page.Update.{compact-delete_record}
use seeddb.Storage.RowStore.{replace_record}

abbrev pub ReplaceOutcome : Page → ℕ → Bytes → Type 0
ReplaceOutcome p i d =
    (q : Page) × (replace_record p i d (length d) ≡ (true, q))
    × IsValid q
    × ((j : ℕ)
        → get_record q j
          ≡ (if j == p.header.slot_count then some d else if j == i then none else get_record p j))

-- On a well-formed page with a record in the slot, for a new record of a positive size below
-- 2^16 - 4: when the free space and the old record's bytes together have room for the record and a
-- slot entry, which is the test of `updateRow`, the update on the page succeeds. The page stays
-- well-formed, the next slot reads back the new record, the old slot no longer reads, and every
-- other slot reads as before.
pub replace_record_lem :
    (p : Page) (i : ℕ) (old d : Bytes)
    → IsValid p
    → get_record p i ≡ some old
    → 0 < length d
    → length d + slot_size < 2 ^ 16
    → length d + slot_size ≤ free_space p + length old
    → ReplaceOutcome p i d
unfolding replace_record
replace_record_lem p i old d v h pos small fits =
    let (valid, same_count, room, reads) = compact-delete_record p i old v h in
    let whole : take (length d) d ≡ d =
      ap (take (length d)) (sym (append-nil d)) ∙ take-append_length d [] in
    elim (insert_record_lem (compact (delete_record p i).1) d (length d) valid pos small
      (omega arith)) [
        | inr (full, _) ↦ absurd (omega arith)
        | inl (_, q, e, w, _, back) ↦
            (q, rw (e, replace_record) refl, w, λ j. back j ∙ rw (reads j, whole, same_count) refl)
      ]
