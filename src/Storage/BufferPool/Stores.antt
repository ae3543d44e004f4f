-- ===== src/Storage/BufferPool/Stores.antt =====
-- Which page stores a `FetchPage` of src/storage/buffer/buffer_pool.cpp leaves: the one it met, or that
-- one with the victim written to it.
use seeddb.Base.{Held, ℕ, true, not, ◌||◌, Option, ◌≡◌, Bool-cases, Option-cases, inl, inr}
use seeddb.Storage.PageId.{PageId}
use seeddb.Storage.Lru.{access, pin, evict}
use seeddb.Storage.BufferPool.{
  PageStore, Pool, is_ready, find_empty, flush_frame, drop_frame, find_victim, load_frame,
  fetch_miss, fetch_hit, fetch_page,
}

module _ (S : PageStore) where
  -- The store takes every write to the page.
  abbrev pub Takes : PageId → S.Store → Type 0
  Takes pid s = (c : S.Content) → (S.write_page pid c s).0 ≡ true

  -- What is relied on of a page store beside `StoreLaws`: a write does not make it refuse a page. A
  -- page is refused by its number, its file and the file's page count, which no write changes.
  pub record WriteLaws : Type 0 where
    pub write-Takes :
        (k pid : PageId) (c : S.Content) (s : S.Store)
        → Takes k s
        → Takes k (S.write_page pid c s).1

  module _ (P : S.Store → Type 0)
      (keeps : (pid : PageId) (c : S.Content) (s : S.Store)
        → P s
        → P (S.write_page pid c s).1) where
    flush_frame-store : (fid : ℕ) (p : Pool S) → P p.store → P (flush_frame S fid p).store
    unfolding flush_frame
    flush_frame-store fid p h =
        elim (Bool-cases (not (is_ready (p.frames fid).state) || not (p.frames fid).is_dirty)) [
          | inl e ↦ rw (e, flush_frame) h
          | inr e ↦ rw (e, flush_frame) (keeps (p.frames fid).page_id (p.frames fid).page p.store h)
        ]

    find_victim-store : (p : Pool S) → P p.store → P (find_victim S p).1.store
    unfolding find_victim drop_frame
    find_victim-store p h = elim (Option-cases (find_empty S p.frames 0 p.pool_size)) [
      | inr (fid, e) ↦ rw (e, find_victim) h
      | inl e ↦ elim (Option-cases (evict p.replacer)) [
        | inl e' ↦ rw (e, e', find_victim) h
        | inr ((fid, rest), e') ↦
            rw (e, e', find_victim) (flush_frame-store fid (record p { replacer = rest }) h)
      ]
    ]

    load_frame-store :
        (pid : PageId) (fid : ℕ) (p : Pool S)
        → P p.store
        → Held (λ (x : Option ℕ × Pool S). P x.1.store) (load_frame S pid fid p)
    unfolding load_frame
    load_frame-store pid fid p h = elim (Option-cases (pin fid p.replacer)) [
      | inl e ↦ rw (e, load_frame) tt
      | inr (r, e) ↦ elim (Option-cases (S.get_page pid p.store)) [
        | inl e' ↦ rw (e, e', load_frame) h
        | inr (c, e') ↦ rw (e, e', load_frame) h
      ]
    ]

    fetch_miss-store :
        (pid : PageId) (p : Pool S)
        → P p.store
        → Held (λ (x : Option ℕ × Pool S). P x.1.store) (fetch_miss S pid p)
    unfolding fetch_miss
    fetch_miss-store pid p h = elim (Option-cases (find_victim S p).0) [
      | inl e ↦ rw (e, fetch_miss) (find_victim-store p h)
      | inr (fid, e) ↦
          rw (e, fetch_miss) (load_frame-store pid fid (find_victim S p).1 (find_victim-store p h))
    ]

    fetch_hit-store :
        (fid : ℕ) (p : Pool S)
        → P p.store
        → Held (λ (x : Option ℕ × Pool S). P x.1.store) (fetch_hit S fid p)
    unfolding fetch_hit
    fetch_hit-store fid p h = elim (Option-cases (access fid p.replacer)) [
      | inl e ↦ rw (e, fetch_hit) tt
      | inr (r, e) ↦ rw (e, fetch_hit) h
    ]

    -- What holds of the store and is kept by writes holds after a fetch.
    pub fetch_page-store :
        (pid : PageId) (p : Pool S)
        → P p.store
        → Held (λ (x : Option ℕ × Pool S). P x.1.store) (fetch_page S pid p)
    unfolding fetch_page
    fetch_page-store pid p h = elim (Option-cases (p.page_table pid)) [
      | inl e ↦ rw (e, fetch_page) (fetch_miss-store pid p h)
      | inr (fid, e) ↦ elim (Bool-cases (is_ready (p.frames fid).state)) [
        | inl e' ↦ rw (e, e', fetch_page) (fetch_hit-store fid p h)
        | inr e' ↦ rw (e, e', fetch_page) (fetch_miss-store pid p h)
      ]
    ]
