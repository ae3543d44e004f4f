-- ===== src/Storage/TableIterator/Tests.antt =====
-- The scan of src/storage/table_iterator.cpp over a table of one page with a deleted and a live record.
use seeddb.Base.{Option-cases, ◌∙◌}
use seeddb.Storage.BufferPool.Stores.{Takes, WriteLaws}
use seeddb.Storage.TableIterator.Steps.{TakesSeen}
use seeddb.Base.{
  ℕ, true, false, [], Option, some, none, ◌≡◌, refl, sym, ap, inl, inr, if◌then◌else◌,
}
use seeddb.Base.Int.{pos}
use seeddb.Storage.PageId.{PageId, same, same_iff}
use seeddb.Storage.Lru.{contains, make}
use seeddb.Storage.Lru.Order.{make-IsValid}
use seeddb.Storage.Page.Tests.{holed}
use seeddb.Storage.Page.{Page}
use seeddb.Storage.BufferPool.{Pool, empty, is_ready, is_empty}
use seeddb.Storage.BufferPool.Invariant.{StoreLaws, IsCoherent, absurd_of, same-cases}
use seeddb.Storage.RowStore.{PageManager, pages}
use seeddb.Storage.TableIterator.{HeapTableIterator, next}
use seeddb.Storage.TableIterator
use seeddb.Storage.TableIterator.Scan.{NextOutcome, next-NextOutcome}

abbrev first : PageId
first = record { file_id = 1; page_num = 0 }

-- A store in memory, which refuses a write to a page that it does not have.
abbrev memory : PageManager
memory = record {
  Store = PageId → Option Page;
  fresh = λ pid. holed;
  allocate_page = λ file s. (record { file_id = file; page_num = 1 }, s);
  get_page = λ pid s. s pid;
  write_page = λ pid c s. elim (s pid) [
    | none ↦ (false, s)
    | some old ↦ (true, λ k. if same pid k then some c else s k)
  ];
  page_count = λ file s. 1;
}

memory-StoreLaws : StoreLaws (pages memory)
memory-StoreLaws = record {
  get-write_self = λ pid c s h. elim (Option-cases (s pid)) [
    | inl e ↦ absurd (absurd_of (sym h ∙ rw e refl) refl refl)
    | inr (old, e) ↦ rw (e, (same_iff pid pid).1 refl) refl
  ];
  get-write_ne = λ pid k c s h. elim (Option-cases (s pid)) [
    | inl e ↦ rw e refl
    | inr (old, e) ↦ elim (same-cases pid k) [
      | inl (same_page, _) ↦ absurd (h same_page)
      | inr (_, miss) ↦ rw (e, miss) refl
    ]
  ];
}

-- A page that is there is taken.
there-Takes : (k : PageId) (s : memory.Store) (d : Page) → s k ≡ some d → Takes (pages memory) k s
there-Takes k s d e c = rw e refl

Takes-there :
    (k : PageId) (s : memory.Store) → Takes (pages memory) k s → (d : Page) × (s k ≡ some d)
Takes-there k s t = elim (Option-cases (s k)) [
  | inl e ↦ absurd_of (sym (t holed) ∙ rw e refl) refl refl
  | inr there ↦ there
]

still_there :
    (k pid : PageId) (c d : Page) (s : memory.Store)
    → s k ≡ some d
    → (d' : Page) × ((memory.write_page pid c s).1 k ≡ some d')
still_there k pid c d s there = elim (Option-cases (s pid)) [
  | inl e ↦ (d, rw e there)
  | inr (old, e) ↦ elim (same-cases pid k) [
    | inl (_, hit) ↦ (c, rw (e, hit) refl)
    | inr (_, miss) ↦ (d, rw (e, miss) there)
  ]
]

memory-WriteLaws : WriteLaws (pages memory)
memory-WriteLaws = record {
  write-Takes = λ k pid c s t.
      let (d, there) = Takes-there k s t in
      let (d', after) = still_there k pid c d s there in
      there-Takes k (memory.write_page pid c s).1 d' after;
}

-- A pool of one empty frame; the first page is in the store.
abbrev unread : Pool (pages memory)
unread = record {
  store = λ k. if same first k then some holed else none;
  pool_size = 1;
  frames = λ i. record {
    page = holed;
    page_id = first;
    pin_count = pos 0;
    is_dirty = false;
    state = empty;
  };
  page_table = λ k. none;
  replacer = make 1 (pos 37);
}

unread-IsCoherent : IsCoherent (pages memory) unread
unfolding contains make
unread-IsCoherent = record {
  entries = λ k i h. absurd (nothing i h);
  held = λ i hi h. absurd_of (sym (ap is_ready h)) refl refl;
  lru = make-IsValid 1 (pos 37);
  listed = λ i h. absurd_of (sym h) refl refl;
  settled = λ i hi h. absurd_of (ap is_empty h) refl refl;
  clean = λ i hi h tidy. absurd_of (sym (ap is_ready h)) refl refl;
}
  where
    nothing : (i : ℕ) → ¬ (none ≡ some i)
    nothing i h = cc

abbrev scan : HeapTableIterator
scan = TableIterator.make 1 1 (record { columns = []; name_to_index = λ s. none })

-- What a reader sees is in the store.
unread-TakesSeen : TakesSeen memory unread unread.store
unread-TakesSeen k c seen = there-Takes k unread.store c seen

next-NextOutcome_example :
    NextOutcome memory memory-StoreLaws memory-WriteLaws none unread scan (next memory scan unread)
unfolding TableIterator.make
next-NextOutcome_example =
    next-NextOutcome memory memory-StoreLaws memory-WriteLaws scan unread unread-IsCoherent
      unread-TakesSeen tt refl
