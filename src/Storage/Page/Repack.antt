-- ===== src/Storage/Page/Repack.antt =====
-- The loop of `Page::compact` of src/storage/page.h.
use native.Mathlib.Numerals.{add-one}
use seeddb.Base.{
  ℕ, ◌+◌, zero, suc, Memory, if◌then◌else◌, write, ◌<◌, ◌≤◌, inl, ◌-◌, ◌==◌, ◌≡◌, ◌≢◌, eq-cases,
  read, ◌*◌, ap, arith, inr, ◌∙◌, ≢→==_false, length-read, sub32, subst, ≡→==_true, ◌^◌,
  read-write_apart, read-write_self, refl, sym, u16,
}
use seeddb.Storage.PageId.{page_size}
use seeddb.Storage.PageHeader.{header_size}
use seeddb.Storage.Page.{Page, SlotEntry, read_slot, write_slot, slot_size, repack, compact}
use seeddb.Storage.Page.Invariant.{
  Packed, Packed-live_slot, Packed-ext, IsValid, read_slot-write_slot_self, read_slot-write_slot_ne,
  read_slot-write_apart, read-write_slot_apart,
}

-- Where the lowest record of the first `k` slots starts.
abbrev pub floor : Memory → ℕ → ℕ
floor b zero = page_size
floor b (suc k) = if (read_slot b k).size == 0 then floor b k else (read_slot b k).offset

-- The bytes of the live records in the first `k` slots.
abbrev pub live_bytes : Memory → ℕ → ℕ
live_bytes b zero = 0
live_bytes b (suc k) = (read_slot b k).size + live_bytes b k

pub Packed-le_floor : (b : Memory) (k u : ℕ) → Packed b k u → u ≤ floor b k
Packed-le_floor b zero u h = h
Packed-le_floor b (suc k) u (inl (e, h)) =
    rw (≡→==_true (read_slot b k).size 0 e) (Packed-le_floor b k u h)
Packed-le_floor b (suc k) u (inr (pos, up, h)) =
    rw (≢→==_false (read_slot b k).size 0 (omega arith)) up

-- A live record ends at or below the records of the slots before it.
Packed-floor :
    (b : Memory) (k u i : ℕ)
    → Packed b k u
    → i < k
    → (read_slot b i).size ≢ 0
    → (read_slot b i).offset + (read_slot b i).size ≤ floor b i
Packed-floor b zero u i h lt live = elim lt [ ]
Packed-floor b (suc k) u i (inl (e, h)) lt live = elim (eq-cases i k) [
  | inl (same, _) ↦ absurd (live (ap (λ n. (read_slot b n).size) same ∙ e))
  | inr (other, _) ↦ Packed-floor b k u i h (omega arith) live
]
Packed-floor b (suc k) u i (inr (pos, up, h)) lt live = elim (eq-cases i k) [
  | inl (same, _) ↦ rw same (Packed-le_floor b k _ h)
  | inr (other, _) ↦ Packed-floor b k _ i h (omega arith) live
]

-- After `i` slots: they are packed from the page's end down to `upper`, with their records; the
-- later slots are untouched.
pub record Repacked (p : Page) (i : ℕ) (body : Memory) (upper : ℕ) : Type 0 where
  pub above : floor p.body i ≤ upper
  pub packed : Packed body i upper
  pub total : upper + live_bytes p.body i ≡ page_size
  pub later : (j : ℕ) → i ≤ j → j < p.header.slot_count → read_slot body j ≡ read_slot p.body j
  pub sizes : (j : ℕ) → j < i → (read_slot body j).size ≡ (read_slot p.body j).size
  pub kept :
      (j : ℕ)
      → j < i
      → (read_slot p.body j).size ≢ 0
      → read body ((read_slot body j).offset - header_size) (read_slot p.body j).size
        ≡ read p.body ((read_slot p.body j).offset - header_size) (read_slot p.body j).size

-- The step at a live slot, with no word wrapping.
abbrev moved : Page → ℕ → Memory → ℕ → Memory
moved p i body upper =
    let e = read_slot p.body i in
    write_slot
      (write body (upper - e.size - header_size) (read p.body (e.offset - header_size) e.size)) i
      (record { offset = upper - e.size; size = e.size })

module _ (p : Page) (v : IsValid p) (i : ℕ) (body : Memory) (upper : ℕ)
    (r : Repacked p i body upper) (lt : i < p.header.slot_count) where
  repack_deleted :
      (left : ℕ)
      → (read_slot p.body i).size ≡ 0
      → repack p.body i (suc left) body upper ≡ repack p.body (suc i) left body upper
  unfolding repack
  repack_deleted left dead = rw (≡→==_true (read_slot p.body i).size 0 dead) (rw add-one refl)

  Repacked-deleted : (read_slot p.body i).size ≡ 0 → Repacked p (suc i) body upper
  Repacked-deleted dead =
      let same = r.later i (omega arith) lt in
      let gone = ap (λ (e : SlotEntry). e.size) same ∙ dead in
      record {
        above = rw (≡→==_true (read_slot p.body i).size 0 dead) r.above;
        packed = inl (gone, r.packed);
        total = let t = r.total in omega arith;
        later = λ j le below. r.later j (omega arith) below;
        sizes = λ j le. elim (eq-cases j i) [
          | inl (here, _) ↦ rw here (ap (λ (e : SlotEntry). e.size) same)
          | inr (other, _) ↦ r.sizes j (omega arith)
        ];
        kept = λ j le alive. elim (eq-cases j i) [
          | inl (here, _) ↦ absurd (alive (ap (λ n. (read_slot p.body n).size) here ∙ dead))
          | inr (other, _) ↦ r.kept j (omega arith) alive
        ];
      }

  module _ (live : (read_slot p.body i).size ≢ 0) where
    -- The numbers of the step.
    bounds :
        (header_size + slot_size * p.header.slot_count ≤ (read_slot p.body i).offset)
        × ((read_slot p.body i).offset + (read_slot p.body i).size ≤ upper)
        × (upper ≤ page_size)
    bounds =
        let at = Packed-live_slot p.body p.header.slot_count _ i v.packed lt live in
        let below = Packed-floor p.body p.header.slot_count _ i v.packed lt live in
        let above = r.above in
        let lower = v.lower in
        let room = v.room in let total = r.total in (omega arith, omega arith, omega arith)

    repack_live :
        (left : ℕ)
        → repack p.body i (suc left) body upper
          ≡ repack p.body (suc i) left (moved p i body upper) (upper - (read_slot p.body i).size)
    unfolding repack
    repack_live left =
        let e = read_slot p.body i in
        let (lo, mid, hi) = bounds in
        let next : i + 1 ≡ suc i = add-one i in
        let top : sub32 upper e.size ≡ upper - e.size = omega arith in
        let dest : sub32 (sub32 upper e.size) header_size ≡ upper - e.size - header_size =
          omega arith in
        let src : sub32 e.offset header_size ≡ e.offset - header_size = omega arith in
        let off : u16 (sub32 upper e.size) ≡ upper - e.size = omega arith in
        rw (≢→==_false e.size 0 live) (λ k.
          repack p.body (next k) left
            (write_slot (write body (dest k) (read p.body (src k) e.size)) i
              (record { offset = off k; size = e.size }))
            (top k))

    size_fits : (read_slot p.body i).size < 2 ^ 16
    size_fits = let (lo, mid, hi) = bounds in omega arith

    moved_slot :
        (j : ℕ)
        → j ≢ i
        → j < p.header.slot_count
        → read_slot (moved p i body upper) j ≡ read_slot body j
    moved_slot j ne below =
        let (lo, mid, hi) = bounds in
        let n =
          length-read p.body ((read_slot p.body i).offset - header_size)
            (read_slot p.body i).size in
        read_slot-write_slot_ne _ i j _ (λ e. ne (sym e))
        ∙ read_slot-write_apart body _ _ j (inl (omega arith))

    moved_self :
        read_slot (moved p i body upper) i
        ≡ record { offset = upper - (read_slot p.body i).size; size = (read_slot p.body i).size }
    moved_self =
        let (lo, mid, hi) = bounds in read_slot-write_slot_self _ i _ (omega arith) size_fits

    -- The records above the cursor stay where they are.
    moved_above :
        (at n : ℕ) → upper ≤ at + header_size → read (moved p i body upper) at n ≡ read body at n
    moved_above at n le =
        let (lo, mid, hi) = bounds in
        let len =
          length-read p.body ((read_slot p.body i).offset - header_size)
            (read_slot p.body i).size in
        read-write_slot_apart _ i _ at n (omega arith)
        ∙ read-write_apart body _ _ at n (inr (omega arith))

    moved_record :
        read
          (moved p i body upper)
          (upper - (read_slot p.body i).size - header_size)
          (read_slot p.body i).size
        ≡ read p.body ((read_slot p.body i).offset - header_size) (read_slot p.body i).size
    moved_record =
        let (lo, mid, hi) = bounds in
        let e = read_slot p.body i in
        let bytes = read p.body (e.offset - header_size) e.size in
        let dest = upper - e.size - header_size in
        read-write_slot_apart _ i _ _ _ (omega arith)
        ∙ subst (λ n. read (write body dest bytes) dest n ≡ bytes)
            (length-read p.body (e.offset - header_size) e.size) (read-write_self body dest bytes)

    Repacked-live : Repacked p (suc i) (moved p i body upper) (upper - (read_slot p.body i).size)
    Repacked-live =
        let (lo, mid, hi) = bounds in
        record {
          above = rw (≢→==_false (read_slot p.body i).size 0 live) (omega arith);
          packed = inr (
            rw moved_self (omega arith),
            rw moved_self (omega arith),
            rw moved_self (
                rw
                  (let back : upper - (read_slot p.body i).size + (read_slot p.body i).size
                        ≡ upper =
                      omega arith in
                    back)
                  (Packed-ext body _ i upper
                    (λ j le. sym (moved_slot j (omega arith) (omega arith))) r.packed)),
          );
          total = let t = r.total in omega arith;
          later = λ j le below. moved_slot j (omega arith) below ∙ r.later j (omega arith) below;
          sizes = λ j le. elim (eq-cases j i) [
            | inl (here, _) ↦ rw here (ap (λ (e : SlotEntry). e.size) moved_self)
            | inr (other, _) ↦
                ap (λ (e : SlotEntry). e.size) (moved_slot j other (omega arith))
                ∙ r.sizes j (omega arith)
          ];
          kept = λ j le alive. elim (eq-cases j i) [
            | inl (here, _) ↦ rw here (rw moved_self moved_record)
            | inr (other, _) ↦ rw (moved_slot j other (omega arith)) (
                let at =
                  Packed-live_slot body i upper j r.packed (omega arith)
                    (λ z. alive (sym (r.sizes j (omega arith)) ∙ z)) in
                moved_above _ _ (omega arith) ∙ r.kept j (omega arith) alive)
          ];
        }

module _ (p : Page) (v : IsValid p) where
  repack-Repacked :
      (left i : ℕ) (body : Memory) (upper : ℕ)
      → i + left ≡ p.header.slot_count
      → Repacked p i body upper
      → Repacked p p.header.slot_count
          (repack p.body i left body upper).0
          (repack p.body i left body upper).1
  repack-Repacked zero i body upper e r =
      unfold repack in
      subst (λ n. Repacked p n body upper)
        (let same : i ≡ p.header.slot_count = omega arith in same) r
  repack-Repacked (suc left) i body upper e r = elim (eq-cases (read_slot p.body i).size 0) [
    | inl (dead, _) ↦ rw (repack_deleted p v i body upper r (omega arith) left dead) (
        repack-Repacked left (suc i) body upper (omega arith)
          (Repacked-deleted p v i body upper r (omega arith) dead))
    | inr (live, _) ↦ rw (repack_live p v i body upper r (omega arith) live left) (
        repack-Repacked left (suc i) _ _ (omega arith)
          (Repacked-live p v i body upper r (omega arith) live))
  ]

  pub compacted : Repacked p p.header.slot_count (compact p).body (compact p).header.upper_offset
  unfolding compact
  compacted = repack-Repacked p.header.slot_count 0 p.body page_size (omega arith) (record {
    above = omega arith;
    packed = omega arith;
    total = omega arith;
    later = λ j _ _. refl;
    sizes = λ j lt. elim lt [ ];
    kept = λ j lt _. elim lt [ ];
  })
