-- ===== src/Storage/BufferPool/Drop.antt =====
-- What `findVictim` in src/storage/buffer/buffer_pool.cpp does with the victim of the replacer.
use seeddb.Base.{
  true, false, ℕ, ◌<◌, ◌≡◌, inl, none, some, ◌≢◌, ap, eq-cases, inr, ◌==◌, sym, ≡→==_true,
  Bool-cases, ◌∙◌, Option-cases, ≢→==_false, refl, subst,
}
use seeddb.Storage.PageId.{PageId, same}
use seeddb.Storage.Lru.{LruReplacer, contains}
use seeddb.Storage.Lru.Laws as Lru
use seeddb.Storage.BufferPool.{
  PageStore, Pool, empty, ready, is_empty, Frame, flush_frame, drop_frame, set_entry,
}
use seeddb.Storage.BufferPool.Invariant.{
  StoreLaws, absurd_of, same-cases, view, view-none, view-some, IsCoherent,
}

pub some_inj : {a b : ℕ} → some a ≡ some b → a ≡ b
some_inj h = cc

pub not_same : (a b : PageId) → a ≢ b → same a b ≡ false
not_same a b other = elim (same-cases a b) [ inl (e, _) ↦ absurd (other e) | inr (_, miss) ↦ miss ]

module _ (S : PageStore) (laws : StoreLaws S) where
  -- The frame is empty and its page is stored; the other frames and pages are as they were.
  pub record Drops (fid : ℕ) (rest : LruReplacer) (p q : Pool S) : Type 0 where
    pub size : q.pool_size ≡ p.pool_size
    pub replaced : q.replacer ≡ rest
    pub table : (k : PageId) → q.page_table k ≡ set_entry p.page_table (p.frames fid).page_id none k
    pub others : (i : ℕ) → fid ≢ i → q.frames i ≡ p.frames i
    pub emptied : (q.frames fid).state ≡ empty
    pub kept :
        (k : PageId) → ¬ ((p.frames fid).page_id ≡ k) → S.get_page k q.store ≡ S.get_page k p.store
    pub stored : S.get_page (p.frames fid).page_id q.store ≡ some (p.frames fid).page

  module _ (p : Pool S) (fid : ℕ) (rest : LruReplacer) (is : (p.frames fid).state ≡ ready) where
    -- A dirty page is written, a clean one is already stored.
    pub drop_frame-Drops :
        ((p.frames fid).is_dirty ≡ true
          → (S.write_page (p.frames fid).page_id (p.frames fid).page p.store).0 ≡ true)
        → ((p.frames fid).is_dirty ≡ false
            → S.get_page (p.frames fid).page_id p.store ≡ some (p.frames fid).page)
        → Drops fid rest p (drop_frame S fid rest p)
    unfolding drop_frame flush_frame
    drop_frame-Drops writes clean =
        let self : (fid == fid) ≡ true = ≡→==_true fid fid refl in
        elim (Bool-cases (p.frames fid).is_dirty) [
          | inl dirty ↦
              rw (is, dirty)
                (record {
                  size = refl;
                  replaced = refl;
                  table = λ k. rw self refl;
                  others = λ i other. rw (≢→==_false fid i other) refl;
                  emptied = rw self refl;
                  kept = λ k other.
                      laws.get-write_ne (p.frames fid).page_id k (p.frames fid).page p.store other;
                  stored =
                      laws.get-write_self (p.frames fid).page_id (p.frames fid).page p.store
                        (writes dirty);
                })
          | inr tidy ↦
              rw (is, tidy)
                (record {
                  size = refl;
                  replaced = refl;
                  table = λ k. refl;
                  others = λ i other. rw (≢→==_false fid i other) refl;
                  emptied = rw self refl;
                  kept = λ k other. refl;
                  stored = clean tidy;
                })
        ]

  module _ (p q : Pool S) (fid : ℕ) (rest : LruReplacer) (d : Drops fid rest p q)
      (v : IsCoherent S p) (lt : fid < p.pool_size) (is : (p.frames fid).state ≡ ready) where
    -- A page that the table still has is in another frame.
    table-other :
        (k : PageId) (i : ℕ)
        → q.page_table k ≡ some i
        → (fid ≢ i) × ((p.frames fid).page_id ≢ k) × (p.page_table k ≡ some i)
    table-other k i h = elim (same-cases (p.frames fid).page_id k) [
      | inl (e, hit) ↦ cc (d.table k, h, hit)
      | inr (other, miss) ↦
          let was : p.page_table k ≡ some i = sym (d.table k ∙ rw miss refl) ∙ h in
          let (_, _, own) = v.entries k i was in
          ((λ e. other (ap (λ (j : ℕ). (p.frames j).page_id) e ∙ own)), other, was)
    ]

    -- A frame that is ready is another one, and holds another page.
    ready-other :
        (i : ℕ)
        → i < p.pool_size
        → (q.frames i).state ≡ ready
        → (fid ≢ i)
          × (q.frames i ≡ p.frames i)
          × ((p.frames i).state ≡ ready)
          × ((p.frames fid).page_id ≢ (p.frames i).page_id)
    ready-other i hi h = elim (eq-cases fid i) [
      | inl (e, _) ↦
          absurd_of (ap (λ (j : ℕ). is_empty (q.frames j).state) e) (ap is_empty d.emptied)
            (ap is_empty h)
      | inr (other, _) ↦
          let same_frame = d.others i other in
          let was : (p.frames i).state ≡ ready =
            ap (λ (f : Frame S.Content). f.state) (sym same_frame) ∙ h in
          (
            other,
            same_frame,
            was,
            λ e. other (some_inj (sym (v.held fid lt is) ∙ ap p.page_table e ∙ v.held i hi was)),
          )
    ]

    pub dropped-view : (k : PageId) → view S q k ≡ view S p k
    dropped-view k = elim (same-cases (p.frames fid).page_id k) [
      | inl (e, hit) ↦
          let here : p.page_table k ≡ some fid = ap p.page_table (sym e) ∙ v.held fid lt is in
          let gone : q.page_table k ≡ none = d.table k ∙ rw hit refl in
          view-none S q k gone
          ∙ ap (λ (n : PageId). S.get_page n q.store) (sym e)
          ∙ d.stored
          ∙ sym (view-some S p k fid here)
      | inr (other, miss) ↦
          let kept : q.page_table k ≡ p.page_table k = d.table k ∙ rw miss refl in
          elim (Option-cases (p.page_table k)) [
            | inl gone ↦ view-none S q k (kept ∙ gone) ∙ d.kept k other ∙ sym (view-none S p k gone)
            | inr (i, there) ↦
                let (apart, _, _) = table-other k i (kept ∙ there) in
                view-some S q k i (kept ∙ there)
                ∙ ap (λ (f : Frame S.Content). some f.page) (d.others i apart)
                ∙ sym (view-some S p k i there)
          ]
    ]

    -- The pool without the victim is coherent, if the rest of the list is and names none but frames
    -- of the list before.
    pub dropped-IsCoherent :
        Lru.IsValid rest
        → ((i : ℕ)
            → contains (Lru.order rest) i ≡ true
            → (fid ≢ i) × (contains (Lru.order p.replacer) i ≡ true))
        → IsCoherent S q
    dropped-IsCoherent valid fewer = record {
      entries = λ k i h.
          let (other, _, was) = table-other k i h in
          let (hi, is_there, own) = v.entries k i was in
          rw (d.size, d.others i other) (hi, is_there, own);
      held = λ i hi h.
          let (other, same_frame, was, apart) = ready-other i (subst (λ n. i < n) d.size hi) h in
          rw same_frame
            (d.table _ ∙ rw (not_same _ _ apart) (v.held i (subst (λ n. i < n) d.size hi) was));
      lru = rw d.replaced valid;
      listed = λ i h.
          let (other, before) =
            fewer i (ap (λ (r : LruReplacer). contains (Lru.order r) i) (sym d.replaced) ∙ h) in
          let (hi, is_there) = v.listed i before in rw (d.size, d.others i other) (hi, is_there);
      settled = λ i hi h. elim (eq-cases fid i) [
        | inl (e, _) ↦
            absurd_of (ap (λ (j : ℕ). is_empty (q.frames j).state) e) (ap is_empty d.emptied)
              (ap is_empty h)
        | inr (other, _) ↦
            v.settled i (subst (λ n. i < n) d.size hi)
              (ap (λ (f : Frame S.Content). f.state) (sym (d.others i other)) ∙ h)
      ];
      clean = λ i hi h tidy.
          let (other, same_frame, was, apart) = ready-other i (subst (λ n. i < n) d.size hi) h in
          rw same_frame (
            d.kept _ apart
            ∙ v.clean i (subst (λ n. i < n) d.size hi) was
                (ap (λ (f : Frame S.Content). f.is_dirty) (sym same_frame) ∙ tidy));
    }
