-- ===== src/Storage/BufferPool/Invariant.antt =====
-- The coherence of the buffer pool of src/storage/buffer/buffer_pool.cpp, and what a reader sees.
use seeddb.Base.{
  true, false, ℕ, zero, suc, ◌+◌, Option, ◌<◌, ◌≡◌, ◌≤◌, some, ◌⊎◌, Bool-cases, ◌≢◌, inl, none, inr,
  arith, eq-cases, ap, refl, Bool,
}
use seeddb.Storage.PageId.{PageId, same, same_iff}
use seeddb.Storage.Lru.{contains}
use seeddb.Storage.Lru.Laws as Lru
use seeddb.Storage.BufferPool.{PageStore, Pool, empty, loading, ready, is_empty, Frame, find_empty}

-- What is relied on of a page store: a page that was written with success is read back, and a
-- write leaves the other pages alone.
pub record StoreLaws (S : PageStore) : Type 0 where
  pub get-write_self :
      (pid : PageId) (c : S.Content) (s : S.Store)
      → (S.write_page pid c s).0 ≡ true
      → S.get_page pid (S.write_page pid c s).1 ≡ some c
  pub get-write_ne :
      (pid k : PageId) (c : S.Content) (s : S.Store)
      → pid ≢ k
      → S.get_page k (S.write_page pid c s).1 ≡ S.get_page k s

pub same-cases : (a b : PageId) → ((a ≡ b) × (same a b ≡ true)) ⊎ ((¬ (a ≡ b)) × (same a b ≡ false))
same-cases a b = elim (Bool-cases (same a b)) [
  | inl h ↦ inl ((same_iff a b).0 h, h)
  | inr h ↦ inr ((λ e. cc ((same_iff a b).1 e, h)), h)
]

pub absurd_of {ℓ} : {A : Type ℓ} {a b : Bool} → a ≡ b → a ≡ true → b ≡ false → A
absurd_of e h k = cc

module _ (S : PageStore) where
  -- What a page holds for a reader: the cached content, else the stored one.
  abbrev pub view : Pool S → PageId → Option S.Content
  view p pid = elim (p.page_table pid) [
    | none ↦ S.get_page pid p.store
    | some fid ↦ some (p.frames fid).page
  ]

  pub view-none :
      (p : Pool S) (k : PageId) → p.page_table k ≡ none → view p k ≡ S.get_page k p.store
  view-none p k h = rw (h, view) refl

  pub view-some :
      (p : Pool S) (k : PageId) (fid : ℕ)
      → p.page_table k ≡ some fid
      → view p k ≡ some (p.frames fid).page
  view-some p k fid h = rw (h, view) refl

  -- The page table and the ready frames belong together, the replacer lists ready frames only, no
  -- frame is loading, and a frame that is not dirty holds what is stored.
  pub record IsCoherent (p : Pool S) : Type 0 where
    pub entries :
        (pid : PageId) (fid : ℕ)
        → p.page_table pid ≡ some fid
        → (fid < p.pool_size) × ((p.frames fid).state ≡ ready) × ((p.frames fid).page_id ≡ pid)
    pub held :
        (fid : ℕ)
        → fid < p.pool_size
        → (p.frames fid).state ≡ ready
        → p.page_table (p.frames fid).page_id ≡ some fid
    pub lru : Lru.IsValid p.replacer
    pub listed :
        (fid : ℕ)
        → contains (Lru.order p.replacer) fid ≡ true
        → (fid < p.pool_size) × ((p.frames fid).state ≡ ready)
    pub settled : (fid : ℕ) → fid < p.pool_size → (p.frames fid).state ≢ loading
    pub clean :
        (fid : ℕ)
        → fid < p.pool_size
        → (p.frames fid).state ≡ ready
        → (p.frames fid).is_dirty ≡ false
        → S.get_page (p.frames fid).page_id p.store ≡ some (p.frames fid).page

  -- The store takes the pages that the frames hold.
  abbrev pub WritesBack : Pool S → Type 0
  WritesBack p =
      (fid : ℕ)
      → fid < p.pool_size
      → (p.frames fid).state ≡ ready
      → (S.write_page (p.frames fid).page_id (p.frames fid).page p.store).0 ≡ true

  pub find_empty-cases :
      (frames : ℕ → Frame S.Content) (left i : ℕ)
      → ((fid : ℕ) × (i ≤ fid)
          × (fid < i + left)
          × ((frames fid).state ≡ empty)
          × (find_empty S frames i left ≡ some fid))
        ⊎ (((fid : ℕ) → i ≤ fid → fid < i + left → (frames fid).state ≢ empty)
            × (find_empty S frames i left ≡ none))
  unfolding find_empty
  find_empty-cases frames zero i = inr ((λ fid lo hi. absurd (omega arith)), refl)
  find_empty-cases frames (suc left) i = elim (Bool-cases (is_empty (frames i).state)) [
    | inl here ↦ inl (i, omega arith, omega arith, ground arith, rw (here, find_empty) refl)
    | inr full ↦ elim (find_empty-cases frames left (i + 1)) [
      | inl (fid, lo, hi, e, h) ↦ inl (fid, omega arith, omega arith, e, rw (full, find_empty) h)
      | inr (all, h) ↦ inr (
        (λ fid lo hi. elim (eq-cases fid i) [
          | inl (same_one, _) ↦
              λ e. cc (full, ap (λ (k : ℕ). is_empty (frames k).state) same_one, ap is_empty e)
          | inr (other, _) ↦ all fid (omega arith) (omega arith)
        ]),
        rw (full, find_empty) h,
      )
    ]
  ]
