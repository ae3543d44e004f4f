-- ===== src/Storage/TableIterator/Scan.antt =====
-- `next` of src/storage/table_iterator.cpp gives the records of a table in their order.
use seeddb.Storage.BufferPool.Stores.{WriteLaws}
use seeddb.Storage.TableIterator.Steps.{TakesSeen}
use seeddb.Base.{
  ℕ, zero, suc, ◌+◌, ◌-◌, ◌<◌, ◌≤◌, ◌≡◌, ◌⊎◌, inl, inr, Bool, true, false, Option, none, some,
  Bytes, refl, sym, ◌∙◌, ap, subst, arith, eq-cases,
}
use seeddb.Storage.PageId.{PageId}
use seeddb.Storage.BufferPool.{Pool}
use seeddb.Storage.BufferPool.Invariant.{StoreLaws, IsCoherent, view, view-some}
use seeddb.Storage.RowSerializer
use seeddb.Storage.RowStore.{PageManager, pages}
use seeddb.Storage.TableIterator.Steps.{
  no_calls, record_of, record_at, NoFrame, Kept, Holds, find_slot-page, open_page-OpenOutcome,
  release-Kept,
}
use seeddb.Storage.TableIterator.{
  HeapTableIterator, Pinned, page_here, page_done, at_slot, release, open_page, scan_pages, next,
  current_row,
}

module _ (M : PageManager) where
  module _ (laws : StoreLaws (pages M)) (writes : WriteLaws (pages M)) (start : Pinned)
      (p : Pool (pages M)) where
    -- The places behind the iterator's position.
    abbrev Ahead : HeapTableIterator → ℕ → ℕ → Type 0
    Ahead it k s = (it.current_page_num < k) ⊎ ((k ≡ it.current_page_num) × (it.next_slot ≤ s))

    abbrev page_of : HeapTableIterator → ℕ → PageId
    page_of it k = record { file_id = it.file_id; page_num = k }

    -- There is no record at the place, or its page could not be had.
    abbrev Gone : HeapTableIterator → ℕ → ℕ → Type 0
    Gone it k s = (record_at M p (page_of it k) s ≡ none) ⊎ NoFrame M start p

    -- The iterator stands at a record of the page that it holds, and reads its row.
    abbrev Stands :
        HeapTableIterator → ℕ → ℕ → ℕ → Bytes → HeapTableIterator → Pool (pages M) → Type 0
    Stands it k slot fid r after q =
        (after.current_tid ≡ record { file_id = it.file_id; page_num = k; slot_id = slot })
        × (after.current_page_num ≡ k)
        × (after.next_slot ≡ slot + 1)
        × (after.exhausted ≡ false)
        × (after.pinned ≡ some (page_of it k, fid))
        × (q.page_table (page_of it k) ≡ some fid)
        × ((current_row M after q).0 ≡ RowSerializer.deserialize it.schema.columns r)

    -- What `next` answers, and the iterator and the pool behind it.
    abbrev Answer : HeapTableIterator → Bool → HeapTableIterator → Pool (pages M) → Type 0
    Answer it true after q =
        (k : ℕ) × (slot : ℕ) × (fid : ℕ) × (r : Bytes) × (record_at M p (page_of it k) slot
          ≡ some r)
        × Ahead it k slot
        × ((j s : ℕ) → Ahead it j s → (j < k) ⊎ ((j ≡ k) × (s < slot)) → Gone it j s)
        × Stands it k slot fid r after q
    Answer it false after q =
        (after.exhausted ≡ true)
        × (after.pinned ≡ none)
        × ((k s : ℕ) → Ahead it k s → k < it.total_pages → Gone it k s)

    abbrev pub NextOutcome :
        HeapTableIterator → Option (Bool × HeapTableIterator × Pool (pages M)) → Type 0
    NextOutcome it result =
        (found : Bool) × (after : HeapTableIterator) × (q : Pool (pages M)) × (result
          ≡ some (found, after, q))
        × Kept M start p after.pinned q
        × (after.file_id ≡ it.file_id)
        × (after.total_pages ≡ it.total_pages)
        × Answer it found after q

    onward : (it : HeapTableIterator) (j s : ℕ) → it.current_page_num < j → Ahead (page_done it) j s
    onward it j s more = elim (eq-cases j (it.current_page_num + 1)) [
      | inl (e, _) ↦ inr (e, omega arith)
      | inr (other, _) ↦ inl (omega arith)
    ]

    -- Behind a page with no record left, the answer from the next page is the answer.
    page_done-Answer :
        (it : HeapTableIterator)
        → ((s : ℕ) → it.next_slot ≤ s → Gone it it.current_page_num s)
        → (found : Bool) (after : HeapTableIterator) (q : Pool (pages M))
        → Answer (page_done it) found after q
        → Answer it found after q
    page_done-Answer it gone true after q (k, slot, fid, r, there, ahead, skipped, rest) = (
      k,
      slot,
      fid,
      r,
      there,
      inl (elim ahead [ inl more ↦ omega arith | inr (same_page, _) ↦ omega arith ]),
      (λ j s from before. elim from [
        | inr (here, lo) ↦ subst (λ n. Gone it n s) (sym here) (gone s lo)
        | inl more ↦ skipped j s (onward it j s more) before
      ]),
      rest,
    )
    page_done-Answer it gone false after q (done, free, skipped) = (
      done,
      free,
      (λ j s from below. elim from [
        | inr (here, lo) ↦ subst (λ n. Gone it n s) (sym here) (gone s lo)
        | inl more ↦ skipped j s (onward it j s more) below
      ]),
    )

    -- What the loop does with `left` pages to go.
    abbrev Turns : ℕ → Type 0
    Turns left =
        (it : HeapTableIterator) (q : Pool (pages M))
        → it.total_pages ≤ left + it.current_page_num
        → it.exhausted ≡ false
        → it.row_cached ≡ false
        → Holds M q it.file_id it.pinned
        → Kept M start p it.pinned q
        → NextOutcome it (scan_pages M left it q)

    unread :
        (left : ℕ) (it : HeapTableIterator) (q : Pool (pages M))
        → Turns left
        → it.total_pages ≤ suc left + it.current_page_num
        → it.exhausted ≡ false
        → it.row_cached ≡ false
        → (q' : Pool (pages M)) → open_page M (page_here it) it.pinned q ≡ some (none, q')
        → Kept M start p none q'
        → (view (pages M) p (page_here it) ≡ none) ⊎ NoFrame M start p
        → NextOutcome it (scan_pages M (suc left) it q)
    unfolding scan_pages
    unread left it q turns enough open_one fresh q' e kept' why =
        let (found, after, last, e', behind, file, count, answer) =
          turns (page_done (record it { pinned = none })) q' (omega arith) open_one fresh tt
            kept' in
        (
          found,
          after,
          last,
          rw (e, scan_pages) e',
          behind,
          file,
          count,
          page_done-Answer it
              (λ s lo. elim why [
                | inl missing ↦ inl (ap (λ o. record_of o s) missing)
                | inr refused ↦ inr refused
              ])
              found after last answer,
        )

    read :
        (left : ℕ) (it : HeapTableIterator) (q : Pool (pages M))
        → Turns left
        → it.total_pages ≤ suc left + it.current_page_num
        → it.exhausted ≡ false
        → it.row_cached ≡ false
        → (q' : Pool (pages M)) (fid : ℕ)
        → open_page M (page_here it) it.pinned q ≡ some (some (page_here it, fid), q')
        → Kept M start p (some (page_here it, fid)) q'
        → q'.page_table (page_here it) ≡ some fid
        → NextOutcome it (scan_pages M (suc left) it q)
    unfolding scan_pages current_row
    read left it q turns enough open_one fresh q' fid e kept' entry =
        let page = (q'.frames fid).page in
        let shown : view (pages M) p (page_here it) ≡ some page =
          sym (kept'.1 (page_here it)) ∙ view-some (pages M) q' (page_here it) fid entry in
        let held = record it { pinned = some (page_here it, fid) } in
        elim (find_slot-page page it.next_slot) [
          | inl (slot, r, e', lo, there, dead) ↦ (
            true,
            at_slot held slot,
            q',
            rw (e, e', scan_pages) refl,
            kept',
            refl,
            refl,
            (
              it.current_page_num,
              slot,
              fid,
              r,
              ap (λ o. record_of o slot) shown ∙ there,
              inr (refl, lo),
              (λ j s from before. elim from [
                | inl more ↦
                    absurd
                      (elim before [ inl less ↦ omega arith | inr (same_page, _) ↦ omega arith ])
                | inr (same_page, above) ↦ elim before [
                  | inl less ↦ absurd (omega arith)
                  | inr (_, below) ↦
                      subst (λ n. Gone it n s) (sym same_page)
                        (inl (ap (λ o. record_of o s) shown ∙ dead s above below))
                ]
              ]),
              (refl, refl, refl, open_one, refl, entry, rw (fresh, there, current_row) refl),
            ),
          )
          | inr (e', dead) ↦
              let (found, after, last, e'', behind, file, count, answer) =
                turns (page_done held) q' (omega arith) open_one fresh (entry, refl) kept' in
              (
                found,
                after,
                last,
                rw (e, e', scan_pages) e'',
                behind,
                file,
                count,
                page_done-Answer it (λ s lo. inl (ap (λ o. record_of o s) shown ∙ dead s lo)) found
                    after last answer,
              )
        ]

    scan_pages-NextOutcome : (left : ℕ) → Turns left
    unfolding scan_pages release
    scan_pages-NextOutcome zero it q enough open_one fresh holds kept = (
      false,
      record it { pinned = none; exhausted = true; has_current = false },
      release M it.pinned q,
      refl,
      release-Kept M laws writes start p it.pinned q kept,
      refl,
      refl,
      (refl, refl, λ k s from below. absurd (past k s from below)),
    )
      where
        past : (k s : ℕ) → Ahead it k s → ¬ (k < it.total_pages)
        past k s (inl more) below = omega arith
        past k s (inr (e, lo)) below = omega arith
    scan_pages-NextOutcome (suc left) it q enough open_one fresh holds kept =
        let (held, q', e, kept', answer) =
          open_page-OpenOutcome M laws writes start p (page_here it) it.pinned q holds kept in
        elim answer [
          | inr (null, why) ↦
              unread left it q (scan_pages-NextOutcome left) enough open_one fresh q'
                (e ∙ ap (λ o. some (o, q')) null) (subst (λ o. Kept M start p o q') null kept') why
          | inl (fid, here, entry) ↦
              read left it q (scan_pages-NextOutcome left) enough open_one fresh q' fid
                (e ∙ ap (λ o. some (o, q')) here) (subst (λ o. Kept M start p o q') here kept')
                entry
        ]

  -- A scan over a coherent pool whose store takes the pages that a reader of the pool sees, at an
  -- iterator that is not exhausted and whose pinned page, if any, is of its file and in the pool:
  -- `next` returns and meets no null link, no page changes for a reader, the store still takes the
  -- pages, its calls on the pool fetch a page only when none is held, and the iterator keeps its file
  -- and page count. If it answers true, the identifier is that of the first record from the iterator's
  -- position on, the iterator is behind it and holds its page, and `currentRow` is the row of the
  -- record's bytes. If it answers false, no page is held and no record is left. Records are passed
  -- over only on a page for which the pool, after such calls, has no empty frame and an empty LRU list.
  pub next-NextOutcome :
      (laws : StoreLaws (pages M))
      → (writes : WriteLaws (pages M)) → (it : HeapTableIterator) (p : Pool (pages M))
      → IsCoherent (pages M) p
      → TakesSeen M p p.store
      → Holds M p it.file_id it.pinned
      → it.exhausted ≡ false
      → NextOutcome laws writes it.pinned p it (next M it p)
  unfolding next
  next-NextOutcome laws writes it p v taken holds open_one =
      subst (NextOutcome laws writes it.pinned p it) (sym (rw (open_one, next) refl)) (
        scan_pages-NextOutcome laws writes it.pinned p (it.total_pages - it.current_page_num)
          (record it { row_cached = false }) p (omega arith) open_one refl holds
          (v, (λ k. refl), taken, no_calls))
