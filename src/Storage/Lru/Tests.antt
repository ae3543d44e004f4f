-- ===== src/Storage/Lru/Tests.antt =====
-- Runs of the LRU list of src/storage/buffer, and its theorems at a concrete list.
use seeddb.Base.{[], ◌∷◌, ◌≡◌, refl, true}
use seeddb.Base.Int.{pos}
use seeddb.Storage.Lru.{LruReplacer, make, contains, split_last, rebalance, rebalance_loop, unpin}
use seeddb.Storage.Lru.Laws.{IsValid, order}
use seeddb.Storage.Lru.Rebalance.{RebalanceOutcome, rebalance_lem}
use seeddb.Storage.Lru.Order.{
  UnpinOutcome, unpin_lem, AccessOutcome, access_lem, make-IsValid, unpin-IsValid,
}
use seeddb.Storage.Lru.Evict.{EvictOutcome, evict_lem}
use seeddb.Storage.Lru.PinBug.{PinOutcome, pin_sticks}

abbrev start : LruReplacer
start = make 4 (pos 50)

abbrev two : LruReplacer
two = unpin 8 (unpin 7 start)

two-IsValid : IsValid two
two-IsValid = unpin-IsValid (unpin 7 start) 8 (unpin-IsValid start 7 (make-IsValid 4 (pos 50)))

order_of_two : order two ≡ 8 ∷ 7 ∷ []
unfolding make unpin rebalance rebalance_loop split_last
order_of_two = refl

rebalance_lem_example : RebalanceOutcome two
rebalance_lem_example = rebalance_lem two two-IsValid

unpin_lem_example : UnpinOutcome two 9
unpin_lem_example = unpin_lem two 9 two-IsValid

access_lem_example : AccessOutcome two 7
access_lem_example = access_lem two 7 two-IsValid

evict_lem_example : EvictOutcome two
evict_lem_example = evict_lem two two-IsValid

pin_sticks_example : PinOutcome two 7
pin_sticks_example = pin_sticks two 7 two-IsValid listed
  where
    listed : contains (order two) 7 ≡ true
    listed = unfold make unpin rebalance rebalance_loop split_last contains in refl
