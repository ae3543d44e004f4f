-- ===== src/Storage/TableIterator/Steps.antt =====
-- One page of the scan of src/storage/table_iterator.cpp: its live slots, and the calls of the iterator
-- on the buffer pool.
use seeddb.Storage.BufferPool.Stores.{Takes, WriteLaws, fetch_page-store}
use seeddb.Storage.BufferPool.Pins.{unpin_page}
use seeddb.Base.Int.{is_positive}
use seeddb.Base.{Held}
use seeddb.Storage.BufferPool.Invariant.{view-some}
use seeddb.Base.{
  ℕ, zero, suc, ◌+◌, ◌-◌, ◌<◌, ◌≤◌, ◌≡◌, ◌⊎◌, inl, inr, false, Option, none, some, Bytes, refl, sym,
  ◌∙◌, ap, subst, arith, leb, Bool-cases, Option-cases, eq-cases,
}
use seeddb.Storage.PageId.{PageId}
use seeddb.Storage.Page.{Page, get_record}
use seeddb.Storage.Page.Invariant.{get_record_beyond}
use seeddb.Storage.BufferPool.{Pool, fetch_page}
use seeddb.Storage.BufferPool.Invariant.{StoreLaws, IsCoherent, view}
use seeddb.Storage.BufferPool.Victim.{IsFull}
use seeddb.Storage.BufferPool.Fetch.{fetch_page_lem}
use seeddb.Storage.BufferPool.Unpin.{unpin_page_lem}
use seeddb.Storage.RowStore.{PageManager, pages}
use seeddb.Storage.TableIterator.{Pinned, find_slot, unpin_clean, release, fetch_pinned, open_page}

find_slot-cases :
    (page : Page) (left i : ℕ)
    → ((j : ℕ) × (r : Bytes) × (find_slot page left i ≡ some j)
        × (i ≤ j)
        × (get_record page j ≡ some r)
        × ((s : ℕ) → i ≤ s → s < j → get_record page s ≡ none))
      ⊎ ((find_slot page left i ≡ none)
          × ((s : ℕ) → i ≤ s → s < i + left → get_record page s ≡ none))
unfolding find_slot
find_slot-cases page zero i = inr (refl, λ s lo hi. absurd (omega arith))
find_slot-cases page (suc left) i = elim (Option-cases (get_record page i)) [
  | inr (r, here) ↦
      inl (i, r, rw (here, find_slot) refl, omega arith, here, λ s lo hi. absurd (omega arith))
  | inl dead ↦ elim (find_slot-cases page left (i + 1)) [
    | inl (j, r, e, lo, there, before) ↦ inl (
      j,
      r,
      rw (dead, find_slot) e,
      omega arith,
      there,
      λ s above below. from i s dead above (λ more. before s more below),
    )
    | inr (e, before) ↦ inr (
      rw (dead, find_slot) e,
      λ s above below. from i s dead above (λ more. before s more (omega arith)),
    )
  ]
]
  where
    from :
        (i s : ℕ)
        → get_record page i ≡ none
        → i ≤ s
        → (i + 1 ≤ s → get_record page s ≡ none)
        → get_record page s ≡ none
    from i s dead above rest = elim (eq-cases i s) [
      | inl (e, _) ↦ subst (λ n. get_record page n ≡ none) e dead
      | inr (other, _) ↦ rest (omega arith)
    ]

pub find_slot-page :
    (page : Page) (i : ℕ)
    → ((j : ℕ) × (r : Bytes) × (find_slot page (page.header.slot_count - i) i ≡ some j)
        × (i ≤ j)
        × (get_record page j ≡ some r)
        × ((s : ℕ) → i ≤ s → s < j → get_record page s ≡ none))
      ⊎ ((find_slot page (page.header.slot_count - i) i ≡ none)
          × ((s : ℕ) → i ≤ s → get_record page s ≡ none))
find_slot-page page i = elim (find_slot-cases page (page.header.slot_count - i) i) [
  | inl found ↦ inl found
  | inr (e, gone) ↦ inr (
    e,
    λ s lo. elim (Bool-cases (leb page.header.slot_count s)) [
      | inl beyond ↦ get_record_beyond page s (ground arith)
      | inr within ↦ gone s lo (ground arith)
    ],
  )
]

abbrev pub record_of : Option Page → ℕ → Option Bytes
record_of none slot = none
record_of (some page) slot = get_record page slot

module _ (M : PageManager) where
  -- The record at a place of a table, in the page that a reader of the pool sees.
  abbrev pub record_at : Pool (pages M) → PageId → ℕ → Option Bytes
  record_at p pid slot = record_of (view (pages M) p pid) slot

  -- The calls of the iterator on the pool, with the page that it holds: a page is fetched when none
  -- is held, and the held page is released once.
  pub data Calls (start : Pinned) (p : Pool (pages M)) : Pinned → Pool (pages M) → Type 0 where
    no_calls : Calls start p start p
    fetched :
        (pid : PageId) (fid : ℕ) (q r : Pool (pages M))
        → Calls start p none q
        → fetch_page (pages M) pid q ≡ some (some fid, r)
        → Calls start p (some (pid, fid)) r
    refused :
        (pid : PageId) (q r : Pool (pages M))
        → Calls start p none q
        → fetch_page (pages M) pid q ≡ some (none, r)
        → Calls start p none r
    released :
        (pid : PageId) (fid : ℕ) (q : Pool (pages M))
        → Calls start p (some (pid, fid)) q
        → Calls start p none (unpin_clean M pid q)

  -- The pool met by a fetch has no frame to give: none is empty, and the LRU list is.
  abbrev pub NoFrame : Pinned → Pool (pages M) → Type 0
  NoFrame start p = (q : Pool (pages M)) × Calls start p none q × IsFull (pages M) q

  -- The store takes each page that a reader of the pool sees.
  abbrev pub TakesSeen : Pool (pages M) → M.Store → Type 0
  TakesSeen p s = (k : PageId) (c : Page) → view (pages M) p k ≡ some c → Takes (pages M) k s

  -- What holds of the pool after calls on the pool `p`.
  abbrev pub Kept : Pinned → Pool (pages M) → Pinned → Pool (pages M) → Type 0
  Kept start p held q =
      IsCoherent (pages M) q
      × ((k : PageId) → view (pages M) q k ≡ view (pages M) p k)
      × TakesSeen p q.store
      × Calls start p held q

  abbrev pub Holds : Pool (pages M) → ℕ → Pinned → Type 0
  Holds p file none = Unit
  Holds p file (some (pid, fid)) = (p.page_table pid ≡ some fid) × (pid.file_id ≡ file)

  abbrev pub OpenOutcome :
      Pinned → Pool (pages M) → PageId → Option (Pinned × Pool (pages M)) → Type 0
  OpenOutcome start p pid result =
      (held : Pinned) × (q : Pool (pages M)) × (result ≡ some (held, q))
      × Kept start p held q
      × (((fid : ℕ) × (held ≡ some (pid, fid)) × (q.page_table pid ≡ some fid))
          ⊎ ((held ≡ none) × ((view (pages M) p pid ≡ none) ⊎ NoFrame start p)))

  unpin_clean-store : (pid : PageId) (q : Pool (pages M)) → (unpin_clean M pid q).store ≡ q.store
  unfolding unpin_clean unpin_page
  unpin_clean-store pid q = elim (Option-cases (q.page_table pid)) [
    | inl e ↦ rw (unpin_clean, unpin_page, e) refl
    | inr (fid, e) ↦ elim (Bool-cases (is_positive (q.frames fid).pin_count)) [
      | inl e' ↦ rw (unpin_clean, unpin_page, e, e') refl
      | inr e' ↦ rw (unpin_clean, unpin_page, e, e') refl
    ]
  ]

  module _ (laws : StoreLaws (pages M)) (writes : WriteLaws (pages M)) (start : Pinned)
      (p : Pool (pages M)) where
    fetch_pinned-OpenOutcome :
        (pid : PageId) (q : Pool (pages M))
        → Kept start p none q
        → OpenOutcome start p pid (fetch_pinned M pid q)
    unfolding fetch_pinned
    fetch_pinned-OpenOutcome pid q (v, same_view, taken, calls) =
        elim (fetch_page_lem (pages M) laws pid q v (λ fid lt is.
          taken (q.frames fid).page_id (q.frames fid).page
            (sym (same_view (q.frames fid).page_id)
              ∙ view-some (pages M) q (q.frames fid).page_id fid (v.held fid lt is))
            (q.frames fid).page)) [
              | inl (fid, r, there, e, u, shown, entry, count) ↦ hit fid r e u shown entry
              | inr (absent, (answer, r, e, u, shown, cases)) ↦ elim cases [
                | inl (fid, some_fid, entry, count) ↦
                    hit fid r (e ∙ ap (λ o. some (o, r)) some_fid) u shown entry
                | inr (inl (null, missing)) ↦
                    miss r (e ∙ ap (λ o. some (o, r)) null) u shown
                      (inl (sym (same_view pid) ∙ missing))
                | inr (inr (null, full)) ↦
                    miss r (e ∙ ap (λ o. some (o, r)) null) u shown (inr (q, calls, full))
              ]
            ]
      where
        stored :
            (answer : Option ℕ) (r : Pool (pages M))
            → fetch_page (pages M) pid q ≡ some (answer, r)
            → TakesSeen p r.store
        stored answer r e =
            subst (Held (λ (x : Option ℕ × Pool (pages M)). TakesSeen p x.1.store)) e (
              fetch_page-store (pages M) (TakesSeen p)
                (λ at c s h k d seen. writes.write-Takes k at c s (h k d seen)) pid q taken)

        hit :
            (fid : ℕ) (r : Pool (pages M))
            → fetch_page (pages M) pid q ≡ some (some fid, r)
            → IsCoherent (pages M) r
            → ((k : PageId) → view (pages M) r k ≡ view (pages M) q k)
            → r.page_table pid ≡ some fid
            → OpenOutcome start p pid (fetch_pinned M pid q)
        hit fid r e u shown entry = (
          some (pid, fid),
          r,
          rw (e, fetch_pinned) refl,
          (u, (λ k. shown k ∙ same_view k), stored (some fid) r e, fetched pid fid q r calls e),
          inl (fid, refl, entry),
        )

        miss :
            (r : Pool (pages M))
            → fetch_page (pages M) pid q ≡ some (none, r)
            → IsCoherent (pages M) r
            → ((k : PageId) → view (pages M) r k ≡ view (pages M) q k)
            → (view (pages M) p pid ≡ none) ⊎ NoFrame start p
            → OpenOutcome start p pid (fetch_pinned M pid q)
        miss r e u shown why = (
          none,
          r,
          rw (e, fetch_pinned) refl,
          (u, (λ k. shown k ∙ same_view k), stored none r e, refused pid q r calls e),
          inr (refl, why),
        )

    pub unpin_clean-Kept :
        (held : PageId) (fid : ℕ) (q : Pool (pages M))
        → Kept start p (some (held, fid)) q
        → Kept start p none (unpin_clean M held q)
    unfolding unpin_clean
    unpin_clean-Kept held fid q (v, same_view, taken, calls) =
        elim (unpin_page_lem (pages M) held false q v) [
          | inl (e, why) ↦ after q (ap (λ x. x.1) e) v (λ k. refl)
          | inr (f, r, there, positive, e, u, shown, count, dirty, listed) ↦
              after r (ap (λ x. x.1) e) u shown
        ]
      where
        after :
            (r : Pool (pages M))
            → unpin_clean M held q ≡ r
            → IsCoherent (pages M) r
            → ((k : PageId) → view (pages M) r k ≡ view (pages M) q k)
            → Kept start p none (unpin_clean M held q)
        after r e u shown = (
          subst (IsCoherent (pages M)) (sym e) u,
          (λ k. ap (λ x. view (pages M) x k) e ∙ shown k ∙ same_view k),
          subst (TakesSeen p) (sym (unpin_clean-store held q)) taken,
          released held fid q calls,
        )

    pub open_page-OpenOutcome :
        (pid : PageId) (held : Pinned) (q : Pool (pages M))
        → Holds q pid.file_id held
        → Kept start p held q
        → OpenOutcome start p pid (open_page M pid held q)
    unfolding open_page
    open_page-OpenOutcome pid none q h kept = fetch_pinned-OpenOutcome pid q kept
    open_page-OpenOutcome pid (some (at, fid)) q (entry, file) kept =
        elim (eq-cases pid.page_num at.page_num) [
          | inr (_, other) ↦
              subst (OpenOutcome start p pid) (sym (rw (other, open_page) refl))
                (fetch_pinned-OpenOutcome pid (unpin_clean M at q) (unpin_clean-Kept at fid q kept))
          | inl (num, there) ↦
              let here : at ≡ pid = λ i. record { file_id = file i; page_num = sym num i } in
              (
                some (at, fid),
                q,
                rw (there, open_page) refl,
                kept,
                inl (
                  fid,
                  ap (λ k. some (k, fid)) here,
                  subst (λ k. q.page_table k ≡ some fid) here entry,
                ),
              )
        ]

    pub release-Kept :
        (held : Pinned) (q : Pool (pages M))
        → Kept start p held q
        → Kept start p none (release M held q)
    unfolding release
    release-Kept none q kept = kept
    release-Kept (some (held, fid)) q kept = unpin_clean-Kept held fid q kept
