-- ===== src/Storage/Page/Delete.antt =====
-- `Page::deleteRecord` of src/storage/page.h.
use seeddb.Base.{
  zero, suc, zero, suc, ℕ, Memory, ◌<◌, ◌≢◌, ◌≤◌, arith, none, ◌^◌, ◌≡◌, ◌⊎◌, ap, false,
  if◌then◌else◌, suc, true, inl, le→leb_false, ◌==◌, eq-cases, le_or_lt, ≢→==_false, inr, refl, ◌∙◌,
  sym, some,
}
use seeddb.Storage.Page.{
  Page, SlotEntry, read_slot, write_slot, get_record, free_space, delete_record,
}
use seeddb.Storage.Page.Invariant.{
  Packed, Packed-mono, Packed-live_slot, IsValid, read_slot-write_slot_self,
  read_slot-write_slot_ne, read-write_slot_apart, free_space-IsValid, get_record_beyond,
  get_record_deleted, get_record_live,
}

abbrev pub cleared : Memory → ℕ → Memory
cleared b i = write_slot b i (record { offset = (read_slot b i).offset; size = 0 })

pub cleared_self :
    (b : Memory) (i : ℕ) → (read_slot b i).offset < 2 ^ 16 → (read_slot (cleared b i) i).size ≡ 0
cleared_self b i h =
    ap (λ (e : SlotEntry). e.size) (read_slot-write_slot_self b i _ h (omega arith))

-- Freeing one slot leaves the others packed.
Packed-cleared :
    (b : Memory) (i k u : ℕ)
    → (read_slot b i).offset < 2 ^ 16
    → Packed b k u
    → Packed (cleared b i) k u
Packed-cleared b i zero u h p = p
Packed-cleared b i (suc k) u h (inl (e, p)) = elim (eq-cases i k) [
  | inl (same, _) ↦ inl (rw (← same) (cleared_self b i h), Packed-cleared b i k u h p)
  | inr (other, _) ↦ inl (rw (read_slot-write_slot_ne b i k _ other) e, Packed-cleared b i k u h p)
]
Packed-cleared b i (suc k) u h (inr (pos, up, p)) = elim (eq-cases i k) [
  | inl (same, _) ↦ inl (
    rw (← same) (cleared_self b i h),
    Packed-cleared b i k u h (Packed-mono b k _ u (omega arith) p),
  )
  | inr (other, _) ↦
      let here =
        read_slot-write_slot_ne b i k (record { offset = (read_slot b i).offset; size = 0 })
          other in
      inr (rw here pos, rw here up, rw here (Packed-cleared b i k _ h p))
]

abbrev pub without : Page → ℕ → Page
without p i = record p { body = cleared p.body i }

module _ (p : Page) (i : ℕ) (v : IsValid p) (lt : i < p.header.slot_count)
    (live : (read_slot p.body i).size ≢ 0) where
  pub without-IsValid : IsValid (without p i)
  without-IsValid =
      let at = Packed-live_slot p.body p.header.slot_count _ i v.packed lt live in
      record {
        lower = v.lower;
        room = v.room;
        packed = Packed-cleared p.body i p.header.slot_count _ (omega arith) v.packed;
      }

  pub get_record-without :
      (j : ℕ) → get_record (without p i) j ≡ (if j == i then none else get_record p j)
  get_record-without j =
      let at = Packed-live_slot p.body p.header.slot_count _ i v.packed lt live in
      elim (eq-cases j i) [
        | inl (same, e) ↦
            rw (e, same) (get_record_deleted _ i (cleared_self p.body i (omega arith)))
        | inr (other, e) ↦ rw e (elim (le_or_lt p.header.slot_count j) [
          | inl le ↦ get_record_beyond _ j le ∙ sym (get_record_beyond p j le)
          | inr below ↦
              let slot =
                read_slot-write_slot_ne p.body i j
                  (record { offset = (read_slot p.body i).offset; size = 0 })
                  (λ x. other (sym x)) in
              elim (eq-cases (read_slot p.body j).size 0) [
                | inl (dead, _) ↦
                    get_record_deleted _ j (rw slot dead) ∙ sym (get_record_deleted p j dead)
                | inr (alive, _) ↦
                    let there =
                      Packed-live_slot p.body p.header.slot_count _ j v.packed below alive in
                    let lower = v.lower in
                    let room = v.room in
                    get_record_live _ j (read_slot p.body j) below slot alive (omega arith)
                      (omega arith)
                    ∙ ap some (read-write_slot_apart p.body i _ _ _ (omega arith))
                    ∙ sym (
                        get_record_live p j (read_slot p.body j) below refl alive (omega arith)
                          (omega arith))
              ]
        ])
      ]

pub delete_record_live :
    (p : Page) (i : ℕ)
    → i < p.header.slot_count
    → (read_slot p.body i).size ≢ 0
    → delete_record p i ≡ (true, without p i)
unfolding delete_record
delete_record_live p i lt live = rw (le→leb_false _ i lt, ≢→==_false _ 0 live) refl

delete_record_none :
    (p : Page) (i : ℕ)
    → (p.header.slot_count ≤ i) ⊎ ((read_slot p.body i).size ≡ 0)
    → delete_record p i ≡ (false, p)
unfolding delete_record
delete_record_none p i h = ground arith

abbrev pub DeleteOutcome : Page → ℕ → Type 0
DeleteOutcome p i =
    ((get_record p i ≢ none)
      × (q : Page) × (delete_record p i ≡ (true, q))
      × IsValid q
      × (free_space q ≡ free_space p)
      × ((j : ℕ) → get_record q j ≡ (if j == i then none else get_record p j)))
    ⊎ ((get_record p i ≡ none) × (delete_record p i ≡ (false, p)))

-- On a well-formed page, `deleteRecord` of a slot that reads back a record answers true, and the
-- page that it leaves is well-formed, has the same free space, no longer reads that slot, and
-- reads every other slot as before. Of any other slot it answers false and changes nothing.
pub delete_record_lem : (p : Page) (i : ℕ) → IsValid p → DeleteOutcome p i
delete_record_lem p i v = elim (le_or_lt p.header.slot_count i) [
  | inl le ↦ inr (get_record_beyond p i le, delete_record_none p i (inl le))
  | inr lt ↦ elim (eq-cases (read_slot p.body i).size 0) [
    | inl (dead, _) ↦ inr (get_record_deleted p i dead, delete_record_none p i (inr dead))
    | inr (live, _) ↦
        let at = Packed-live_slot p.body p.header.slot_count _ i v.packed lt live in
        let lower = v.lower in
        let room = v.room in
        inl (
          (λ e.
              cc (
                get_record_live p i (read_slot p.body i) lt refl live (omega arith) (omega arith))),
          without p i,
          delete_record_live p i lt live,
          without-IsValid p i v lt live,
          free_space-IsValid (without p i) (without-IsValid p i v lt live)
              ∙ sym (free_space-IsValid p v),
          get_record-without p i v lt live,
        )
  ]
]
