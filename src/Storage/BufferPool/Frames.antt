-- ===== src/Storage/BufferPool/Frames.antt =====
-- What happens to a coherent pool of src/storage/buffer/buffer_pool.cpp when one frame changes.
use seeddb.Base.{
  true, false, ℕ, ◌<◌, ◌≡◌, Bool-cases, Option-cases, eq-cases, none, some, ≡→==_true, ◌∙◌, ◌≢◌, ap,
  inl, refl, ≢→==_false, inr, sym, subst, ◌==◌, Bool, ◌||◌,
}
use seeddb.Storage.PageId.{PageId, same_iff}
use seeddb.Storage.Lru.{LruReplacer, contains}
use seeddb.Storage.Lru.Laws as Lru
use seeddb.Storage.BufferPool.{
  PageStore, Pool, empty, ready, is_ready, is_empty, Frame, set_frame, set_entry,
}
use seeddb.Base.Int.{ℤ}
use seeddb.Storage.BufferPool.Invariant.{
  absurd_of, same-cases, view, view-none, view-some, IsCoherent,
}
use seeddb.Storage.BufferPool.Drop.{some_inj, not_same}

entry_absent : {n : ℕ} → ¬ (none ≡ some n)
entry_absent h = cc

module _ (S : PageStore) where
  -- The first frame differs from the second in the pin count at most, or in being dirty.
  abbrev pub Agrees : Frame S.Content → Frame S.Content → Type 0
  Agrees f g =
      (f.state ≡ g.state)
      × (f.page_id ≡ g.page_id)
      × (f.page ≡ g.page)
      × (f.is_dirty ≡ false → g.is_dirty ≡ false)

  pub frame-Agrees :
      (frames : ℕ → Frame S.Content) (fid : ℕ) (n : ℤ) (d : Bool) (i : ℕ)
      → Agrees
          (set_frame frames fid
            (record (frames fid) { pin_count = n; is_dirty = d || (frames fid).is_dirty })
            i)
          (frames i)
  frame-Agrees frames fid n d i = elim (eq-cases fid i) [
    | inl (e, hit) ↦ rw hit (
      ap (λ (j : ℕ). (frames j).state) e,
      ap (λ (j : ℕ). (frames j).page_id) e,
      ap (λ (j : ℕ). (frames j).page) e,
      λ h. sym (ap (λ (j : ℕ). (frames j).is_dirty) e) ∙ either d h,
    )
    | inr (_, miss) ↦ rw miss (refl, refl, refl, λ h. h)
  ]
    where
      either : (a : Bool) {b : Bool} → (a || b) ≡ false → b ≡ false
      either true h = cc
      either false h = h

  pub pinned-Agrees :
      (frames : ℕ → Frame S.Content) (fid : ℕ) (n : ℤ) (i : ℕ)
      → Agrees (set_frame frames fid (record (frames fid) { pin_count = n }) i) (frames i)
  pinned-Agrees frames fid n i = frame-Agrees frames fid n false i

  module _ (p : Pool S) (frames : ℕ → Frame S.Content) (r : LruReplacer)
      (agrees : (i : ℕ) → Agrees (frames i) (p.frames i)) where
    abbrev pub repinned : Pool S
    repinned = record p { frames = frames; replacer = r }

    pub repinned-view : (k : PageId) → view S repinned k ≡ view S p k
    repinned-view k = elim (Option-cases (p.page_table k)) [
      | inl gone ↦ view-none S repinned k gone ∙ sym (view-none S p k gone)
      | inr (i, there) ↦
          let (_, _, content, _) = agrees i in
          view-some S repinned k i there ∙ ap some content ∙ sym (view-some S p k i there)
    ]

    pub repinned-IsCoherent :
        IsCoherent S p
        → Lru.IsValid r
        → ((i : ℕ)
            → contains (Lru.order r) i ≡ true
            → (i < p.pool_size) × ((p.frames i).state ≡ ready))
        → IsCoherent S repinned
    repinned-IsCoherent v valid listed = record {
      entries = λ k i h.
          let (state, pid, _, _) = agrees i in
          let (hi, is_there, own) = v.entries k i h in (hi, state ∙ is_there, pid ∙ own);
      held = λ i hi h.
          let (state, pid, _, _) = agrees i in ap p.page_table pid ∙ v.held i hi (sym state ∙ h);
      lru = valid;
      listed = λ i h.
          let (state, _, _, _) = agrees i in
          let (hi, is_there) = listed i h in (hi, state ∙ is_there);
      settled = λ i hi h. let (state, _, _, _) = agrees i in v.settled i hi (sym state ∙ h);
      clean = λ i hi h tidy.
          let (state, pid, content, dirty) = agrees i in
          ap (λ (n : PageId). S.get_page n p.store) pid
          ∙ v.clean i hi (sym state ∙ h) (dirty tidy)
          ∙ ap some (sym content);
    }

  module _ (p : Pool S) (fid : ℕ) (g : Frame S.Content) (v : IsCoherent S p)
      (lt : fid < p.pool_size) (spare : (p.frames fid).state ≡ empty) where
    -- An empty frame is not in the list and not in the table.
    pub spare-unlisted : contains (Lru.order p.replacer) fid ≡ false
    spare-unlisted = elim (Bool-cases (contains (Lru.order p.replacer) fid)) [
      | inl h ↦ let (_, is) = v.listed fid h in absurd_of refl (ap is_empty spare) (ap is_empty is)
      | inr h ↦ h
    ]

    spare-other : (k : PageId) (i : ℕ) → p.page_table k ≡ some i → fid ≢ i
    spare-other k i h e =
        let (_, is, _) = v.entries k i h in
        absurd_of (ap (λ (j : ℕ). is_empty (p.frames j).state) e) (ap is_empty spare)
          (ap is_empty is)

    -- The frame is put back empty.
    abbrev pub blanked : Pool S
    blanked = record p { frames = set_frame p.frames fid g }

    -- The frame is given to a page.
    abbrev pub filled : PageId → Pool S
    filled pid = record p {
      frames = set_frame p.frames fid g;
      page_table = set_entry p.page_table pid (some fid);
    }

    frame_other : (i : ℕ) → fid ≢ i → set_frame p.frames fid g i ≡ p.frames i
    frame_other i other = rw (≢→==_false fid i other) refl

    frame_self : set_frame p.frames fid g fid ≡ g
    frame_self = rw (≡→==_true fid fid refl) refl

    frame_here : (i : ℕ) → (fid == i) ≡ true → set_frame p.frames fid g i ≡ g
    frame_here i hit = rw hit refl

    listed-other : (i : ℕ) → contains (Lru.order p.replacer) i ≡ true → fid ≢ i
    listed-other i h e = absurd_of (ap (contains (Lru.order p.replacer)) (sym e)) h spare-unlisted

    blank_absurd :
        g.state ≡ empty
        → (i : ℕ) → (fid == i) ≡ true
        → {A : Type 0} → (set_frame p.frames fid g i).state ≡ ready
        → A
    blank_absurd still i hit h =
        absurd_of refl (ap is_empty still)
          (ap is_empty (ap (λ (f : Frame S.Content). f.state) (sym (frame_here i hit)) ∙ h))

    kept-view :
        (k : PageId) (i : ℕ)
        → p.page_table k ≡ some i
        → some (set_frame p.frames fid g i).page ≡ view S p k
    kept-view k i there =
        ap (λ (f : Frame S.Content). some f.page) (frame_other i (spare-other k i there))
        ∙ sym (view-some S p k i there)

    pub blanked-view : (k : PageId) → view S blanked k ≡ view S p k
    blanked-view k = elim (Option-cases (p.page_table k)) [
      | inl gone ↦ view-none S blanked k gone ∙ sym (view-none S p k gone)
      | inr (i, there) ↦ view-some S blanked k i there ∙ kept-view k i there
    ]

    pub filled-view :
        (pid : PageId)
        → p.page_table pid ≡ none
        → S.get_page pid p.store ≡ some g.page
        → (k : PageId) → view S (filled pid) k ≡ view S p k
    filled-view pid absent stored k = elim (same-cases pid k) [
      | inl (e, hit) ↦
          view-some S (filled pid) k fid (rw hit refl)
          ∙ ap (λ (f : Frame S.Content). some f.page) frame_self
          ∙ sym stored
          ∙ sym (view-none S p pid absent)
          ∙ ap (view S p) e
      | inr (other, miss) ↦ elim (Option-cases (p.page_table k)) [
        | inl gone ↦ view-none S (filled pid) k (rw miss gone) ∙ sym (view-none S p k gone)
        | inr (i, there) ↦ view-some S (filled pid) k i (rw miss there) ∙ kept-view k i there
      ]
    ]

    pub blanked-IsCoherent : g.state ≡ empty → IsCoherent S blanked
    blanked-IsCoherent still = record {
      entries = λ k i h. rw (frame_other i (spare-other k i h)) (v.entries k i h);
      held = λ i hi h. elim (eq-cases fid i) [
        | inl (e, hit) ↦ blank_absurd still i hit h
        | inr (other, miss) ↦
            rw miss
              (v.held i hi (ap (λ (f : Frame S.Content). f.state) (sym (frame_other i other)) ∙ h))
      ];
      lru = v.lru;
      listed = λ i h. rw (frame_other i (listed-other i h)) (v.listed i h);
      settled = λ i hi h. elim (eq-cases fid i) [
        | inl (e, hit) ↦
            absurd_of refl (ap is_empty still)
              (ap is_empty (ap (λ (f : Frame S.Content). f.state) (sym (frame_here i hit)) ∙ h))
        | inr (other, miss) ↦
            v.settled i hi (ap (λ (f : Frame S.Content). f.state) (sym (frame_other i other)) ∙ h)
      ];
      clean = λ i hi h tidy. elim (eq-cases fid i) [
        | inl (e, hit) ↦ blank_absurd still i hit h
        | inr (other, miss) ↦ rw miss (
            v.clean i hi (ap (λ (f : Frame S.Content). f.state) (sym (frame_other i other)) ∙ h)
              (ap (λ (f : Frame S.Content). f.is_dirty) (sym (frame_other i other)) ∙ tidy))
      ];
    }

    pub filled-IsCoherent :
        (pid : PageId)
        → p.page_table pid ≡ none
        → S.get_page pid p.store ≡ some g.page
        → g.state ≡ ready
        → g.page_id ≡ pid
        → IsCoherent S (filled pid)
    filled-IsCoherent pid absent stored is own = record {
      entries = λ k i h. elim (same-cases pid k) [
        | inl (e, hit) ↦
            let here : fid ≡ i = some_inj (sym (rw hit refl) ∙ h) in
            rw (frame_here i (≡→==_true fid i here))
              (subst (λ n. n < p.pool_size) here lt, is, own ∙ e)
        | inr (other, miss) ↦
            let there : p.page_table k ≡ some i = sym (rw miss refl) ∙ h in
            rw (frame_other i (spare-other k i there)) (v.entries k i there)
      ];
      held = λ i hi h. elim (eq-cases fid i) [
        | inl (e, hit) ↦ rw (hit, own, (same_iff pid pid).1 refl) (ap some e)
        | inr (other, miss) ↦
            let was = ap (λ (f : Frame S.Content). f.state) (sym (frame_other i other)) ∙ h in
            rw
              (
                miss,
                not_same pid (p.frames i).page_id
                    (λ e. entry_absent (sym absent ∙ ap p.page_table e ∙ v.held i hi was)),
              )
              (v.held i hi was)
      ];
      lru = v.lru;
      listed = λ i h. rw (frame_other i (listed-other i h)) (v.listed i h);
      settled = λ i hi h. elim (eq-cases fid i) [
        | inl (e, hit) ↦
            absurd_of refl (ap is_ready is)
              (ap is_ready (ap (λ (f : Frame S.Content). f.state) (sym (frame_here i hit)) ∙ h))
        | inr (other, miss) ↦
            v.settled i hi (ap (λ (f : Frame S.Content). f.state) (sym (frame_other i other)) ∙ h)
      ];
      clean = λ i hi h tidy. elim (eq-cases fid i) [
        | inl (e, hit) ↦ rw hit (ap (λ (n : PageId). S.get_page n p.store) own ∙ stored)
        | inr (other, miss) ↦ rw miss (
            v.clean i hi (ap (λ (f : Frame S.Content). f.state) (sym (frame_other i other)) ∙ h)
              (ap (λ (f : Frame S.Content). f.is_dirty) (sym (frame_other i other)) ∙ tidy))
      ];
    }
