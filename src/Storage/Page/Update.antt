-- ===== src/Storage/Page/Update.antt =====
-- A delete followed by `Page::compact` of src/storage/page.h: the record's bytes are free again.
use seeddb.Base.{
  ℕ, zero, suc, ◌+◌, Memory, some, none, length, length-read, eq-cases, le_or_lt, Bytes, ◌<◌, ◌≤◌,
  ◌^◌, ◌≡◌, ap, arith, if◌then◌else◌, inl, ◌≢◌, inr, refl, subst, ◌==◌, Bool, sym, ◌∙◌,
}
use seeddb.Storage.Page.{Page, SlotEntry, read_slot, get_record, free_space, delete_record, compact}
use seeddb.Storage.Page.Invariant.{
  IsValid, Packed-live_slot, get_record_beyond, get_record_deleted, get_record_live,
  read_slot-write_slot_ne,
}
use seeddb.Storage.Page.Repack.{live_bytes}
use seeddb.Storage.Page.Compact.{compact_lem}
use seeddb.Storage.Page.Delete.{
  cleared, without, cleared_self, without-IsValid, get_record-without, delete_record_live,
}

live_bytes-cleared_beyond :
    (b : Memory) (i k : ℕ) → k ≤ i → live_bytes (cleared b i) k ≡ live_bytes b k
live_bytes-cleared_beyond b i zero h = refl
live_bytes-cleared_beyond b i (suc k) h =
    let here =
      ap (λ (e : SlotEntry). e.size)
        (read_slot-write_slot_ne b i k (record { offset = (read_slot b i).offset; size = 0 })
          (λ x. absurd (omega (arith, x)))) in
    omega (arith, here, live_bytes-cleared_beyond b i k (omega arith))

live_bytes-cleared :
    (b : Memory) (i k : ℕ)
    → (read_slot b i).offset < 2 ^ 16
    → i < k
    → live_bytes (cleared b i) k + (read_slot b i).size ≡ live_bytes b k
live_bytes-cleared b i zero h lt = elim lt [ ]
live_bytes-cleared b i (suc k) h lt = elim (eq-cases i k) [
  | inl (same, _) ↦
      let gone : (read_slot (cleared b i) k).size ≡ 0 =
        subst (λ n. (read_slot (cleared b i) n).size ≡ 0) same (cleared_self b i h) in
      let own = ap (λ n. (read_slot b n).size) same in
      omega (arith, gone, own, live_bytes-cleared_beyond b i k (omega arith))
  | inr (other, _) ↦
      let here =
        ap (λ (e : SlotEntry). e.size)
          (read_slot-write_slot_ne b i k (record { offset = (read_slot b i).offset; size = 0 })
            other) in
      omega (arith, here, live_bytes-cleared b i k h (omega arith))
]

-- What a slot that reads back a record is.
record_slot :
    (p : Page) (i : ℕ) (old : Bytes)
    → IsValid p
    → get_record p i ≡ some old
    → (i < p.header.slot_count)
      × ((read_slot p.body i).size ≢ 0)
      × (length old ≡ (read_slot p.body i).size)
record_slot p i old v h = elim (le_or_lt p.header.slot_count i) [
  | inl le ↦ cc (h, get_record_beyond p i le)
  | inr lt ↦ elim (eq-cases (read_slot p.body i).size 0) [
    | inl (dead, _) ↦ cc (h, get_record_deleted p i dead)
    | inr (live, _) ↦
        let at = Packed-live_slot p.body p.header.slot_count _ i v.packed lt live in
        let lower = v.lower in
        let room = v.room in
        let reads =
          get_record_live p i (read_slot p.body i) lt refl live (omega arith) (omega arith) in
        (lt, live, ap length (some_inj (sym h ∙ reads)) ∙ length-read _ _ _)
  ]
]
  where
    some_inj : {a b : Bytes} → some a ≡ some b → a ≡ b
    some_inj e = cc e

abbrev pub FreedOutcome : Page → ℕ → Bytes → Page → Type 0
FreedOutcome p i old q =
    IsValid q
    × (q.header.slot_count ≡ p.header.slot_count)
    × (free_space p + length old ≤ free_space q)
    × ((j : ℕ) → get_record q j ≡ (if j == i then none else get_record p j))

pub compact-delete_record :
    (p : Page) (i : ℕ) (old : Bytes)
    → IsValid p
    → get_record p i ≡ some old
    → FreedOutcome p i old (compact (delete_record p i).1)
unfolding compact
compact-delete_record p i old v h =
    let (lt, live, len) = record_slot p i old v h in
    let at = Packed-live_slot p.body p.header.slot_count _ i v.packed lt live in
    let w = without-IsValid p i v lt live in
    let (_, _, before, grows) = compact_lem p v in
    let (keeps, valid, after, _) = compact_lem (without p i) w in
    let freed = live_bytes-cleared p.body i p.header.slot_count (omega arith) lt in
    subst (FreedOutcome p i old)
      (ap (λ (x : Bool × Page). compact x.1) (sym (delete_record_live p i lt live)))
      (valid, refl, omega arith, λ j. keeps j ∙ get_record-without p i v lt live j)
