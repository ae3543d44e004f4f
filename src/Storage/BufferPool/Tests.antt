-- ===== src/Storage/BufferPool/Tests.antt =====
-- The theorems on the buffer pool of src/storage/buffer at a pool of one frame.
use seeddb.Base.{
  true, false, ℕ, [], Bool, inl, Option, if◌then◌else◌, inr, refl, some, ◌<◌, none, ◌&&◌, ◌≡◌, ◌≢◌,
  ap, sym, ◌∙◌, subst, arith, ◌∷◌,
}
use seeddb.Base.Int.{ℤ, pos}
use seeddb.Storage.PageId.{PageId, same, same_iff}
use seeddb.Storage.Lru.{contains, unpin, make}
use seeddb.Storage.Lru.Order.{unpin-make, unpin-IsValid, make-IsValid}
use seeddb.Storage.BufferPool.{PageStore, Pool, ready, empty, is_ready, set_entry}
use seeddb.Storage.BufferPool.Invariant.{StoreLaws, IsCoherent, absurd_of, same-cases}
use seeddb.Storage.BufferPool.Fetch.{FetchOutcome, fetch_page_lem}
use seeddb.Storage.BufferPool.Unpin.{UnpinOutcome, unpin_page_lem}
use seeddb.Storage.BufferPool.Eviction.{PinnedOutcome, LostOutcome, pinned_victim, refused_victim}

abbrev first : PageId
first = record { file_id = 1; page_num = 0 }

abbrev second : PageId
second = record { file_id = 1; page_num = 1 }

-- A store in memory, whose writes succeed or do not.
abbrev memory : Bool → PageStore
memory works = record {
  Store = PageId → Option ℕ;
  Content = ℕ;
  fresh = λ pid. 0;
  allocate_page = λ file s. (record { file_id = file; page_num = 2 }, s);
  get_page = λ pid s. s pid;
  write_page = λ pid c s. (works, λ k. if works && same pid k then some c else s k);
}

memory-StoreLaws : StoreLaws (memory true)
memory-StoreLaws = record {
  get-write_self = λ pid c s h. rw ((same_iff pid pid).1 refl) refl;
  get-write_ne = λ pid k c s h. elim (same-cases pid k) [
    | inl (e, _) ↦ absurd (h e)
    | inr (_, miss) ↦ rw miss refl
  ];
}

-- The frame holds the first page, changed; the second page is in the store.
abbrev one_page : (works : Bool) → ℤ → Pool (memory works)
one_page works pins = record {
  store = λ k. if same second k then some 9 else none;
  pool_size = 1;
  frames =
      λ i. record { page = 7; page_id = first; pin_count = pins; is_dirty = true; state = ready };
  page_table = set_entry (λ k. none) first (some 0);
  replacer = unpin 0 (make 1 (pos 37));
}

one_page-IsCoherent : (works : Bool) (pins : ℤ) → IsCoherent (memory works) (one_page works pins)
unfolding contains
one_page-IsCoherent works pins = record {
  entries = λ k i h. elim (same-cases first k) [
    | inl (e, hit) ↦
        let here : some 0 ≡ some i = sym (rw hit refl) ∙ h in
        (subst (λ n. n < 1) (zero_of i here) (omega arith), refl, e)
    | inr (_, miss) ↦ absurd (nothing i (sym (rw miss refl) ∙ h))
  ];
  held = λ i hi h. rw ((same_iff first first).1 refl) (ap some (omega arith));
  lru = unpin-IsValid (make 1 (pos 37)) 0 (make-IsValid 1 (pos 37));
  listed = λ i h.
      let only : contains (0 ∷ []) i ≡ true =
        ap (λ xs. contains xs i) (sym (unpin-make 1 (pos 37) 0)) ∙ h in
      (ground arith, refl);
  settled = λ i hi h. absurd_of refl refl (ap is_ready h);
  clean = λ i hi h tidy. cc;
}
  where
    zero_of : (i : ℕ) → some 0 ≡ some i → 0 ≡ i
    zero_of i h = cc

    nothing : (i : ℕ) → ¬ (none ≡ some i)
    nothing i h = cc

full : (works : Bool) (i : ℕ) → i < 1 → ((one_page works (pos 0)).frames i).state ≢ empty
full works i hi h = absurd_of refl refl (ap is_ready h)

fetch_page_lem_example : FetchOutcome (memory true) second (one_page true (pos 0))
fetch_page_lem_example =
    fetch_page_lem (memory true) memory-StoreLaws second (one_page true (pos 0))
      (one_page-IsCoherent true (pos 0)) (λ fid lt is. refl)

pinned_victim_example : PinnedOutcome (memory true) first 0 (one_page true (pos 0))
unfolding same
pinned_victim_example =
    pinned_victim (memory true) first 0 (one_page true (pos 0)) (one_page-IsCoherent true (pos 0))
      (full true) refl refl (unpin-make 1 (pos 37) 0)

refused_victim_example : LostOutcome (memory false) 0 (one_page false (pos 0))
refused_victim_example =
    refused_victim (memory false) [] 0 (one_page false (pos 0)) (one_page-IsCoherent false (pos 0))
      (full false) (unpin-make 1 (pos 37) 0) refl refl

unpin_page_lem_example : UnpinOutcome (memory true) first true (one_page true (pos 1))
unpin_page_lem_example =
    unpin_page_lem (memory true) first true (one_page true (pos 1))
      (one_page-IsCoherent true (pos 1))
