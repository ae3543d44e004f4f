-- ===== src/Storage/Lru.antt =====
-- src/storage/buffer/lru_replacer.h and lru_replacer.cpp: the LRU list with midpoint insertion.
-- The list between the sentinels is kept as its two parts: `young` from the head sentinel to the
-- midpoint, `old` from the midpoint to the tail sentinel. `nodes` is the map from a frame to its
-- node, with the node's `in_old`; a node that `unlink` has taken out has null links, and stands in
-- neither part. A step through a null link is `none`.
use mathlib.Core.Option.{Option, none, some}
pub mod Laws
mod Rebalance
pub mod Order
pub mod Evict
pub mod Members
pub mod Stuck
pub mod PinBug
mod Tests
use seeddb.Base.{
  ℕ, zero, suc, ◌+◌, ◌-◌, ◌*◌, ◌/◌, ◌%◌, ◌^◌, List, if◌then◌else◌, ltb, ◌∷◌, Bool, [], false, true,
  ◌==◌, max, ◌||◌,
}
use mathlib.Core.Option
use seeddb.Base.Int.{ℤ, pos, negsuc}

pub record LruReplacer : Type 0 where
  pub nodes : ℕ → Option Bool
  pub young : List ℕ
  pub old : List ℕ
  pub pool_size : ℕ
  pub target_old_size : ℕ
  pub young_size : ℕ
  pub old_size : ℕ

-- `std::clamp(old_pct, 5, 95)`
abbrev clamp_pct : ℤ → ℕ
clamp_pct (pos n) = if ltb n 5 then 5 else if ltb 95 n then 95 else n
clamp_pct (negsuc n) = 5

-- The constructor, with the product in `size_t`.
unfoldable pub make : ℕ → ℤ → LruReplacer
make pool_size old_pct = record {
  nodes = λ f. none;
  young = [];
  old = [];
  pool_size = pool_size;
  target_old_size = max 1 ((pool_size * clamp_pct old_pct) % 2 ^ 64 / 100);
  young_size = 0;
  old_size = 0;
}

-- `--n` on a `size_t`.
abbrev pub dec_size : ℕ → ℕ
dec_size n = if n == 0 then 2 ^ 64 - 1 else n - 1

unfoldable pub contains : List ℕ → ℕ → Bool
contains [] f = false
contains (x ∷ xs) f = x == f || contains xs f

pub remove : List ℕ → ℕ → List ℕ
remove [] f = []
remove (x ∷ xs) f = if x == f then xs else x ∷ remove xs f

abbrev pub set_node : (ℕ → Option Bool) → ℕ → Option Bool → ℕ → Option Bool
set_node nodes f v g = if f == g then v else nodes g

-- `unlink`: the node joins its two neighbours, which it must have.
unfoldable pub unlink : ℕ → LruReplacer → Option LruReplacer
unlink f s =
    if contains s.young f
    then some (record s { young = remove s.young f })
    else if contains s.old f
    then some (record s { old = remove s.old f })
    else none

-- `insertAfter(&midpoint_, node, true)`
abbrev pub insert_old : ℕ → LruReplacer → LruReplacer
insert_old f s = record s { old = f ∷ s.old; nodes = set_node s.nodes f (some true) }

-- `insertAfter(&sentinel_head_, node, false)`
abbrev pub insert_young : ℕ → LruReplacer → LruReplacer
insert_young f s = record s { young = f ∷ s.young; nodes = set_node s.nodes f (some false) }

-- The node before the end sentinel of a part, and the part without it; `none` for an empty part.
pub split_last : List ℕ → Option (List ℕ × ℕ)
split_last [] = none
split_last (x ∷ xs) = elim (split_last xs) [ none ↦ some ([], x) | some (ys, y) ↦ some (x ∷ ys, y) ]

-- One turn of the loop of `rebalance` when there is a young node.
abbrev demote : LruReplacer → List ℕ → ℕ → LruReplacer
demote s rest oldest =
    record (insert_old oldest (record s { young = rest; young_size = dec_size s.young_size })) {
      old_size = s.old_size + 1;
    }

-- `rebalance`: each turn lowers `young_size_`, the first argument, which must be positive.
pub rebalance_loop : ℕ → LruReplacer → LruReplacer
rebalance_loop zero s = s
rebalance_loop (suc n) s = elim (ltb s.target_old_size s.old_size) [
  | false ↦ s
  | true ↦ elim (split_last s.young) [
    | none ↦ s
    | some (rest, oldest) ↦ rebalance_loop n (demote s rest oldest)
  ]
]

pub rebalance : LruReplacer → LruReplacer
rebalance s = rebalance_loop s.young_size s

-- `Pin`. The node stays in `nodes`.
unfoldable pub pin : ℕ → LruReplacer → Option LruReplacer
pin f s = elim (s.nodes f) [
  | none ↦ some s
  | some in_old ↦
      Option.map
        (λ (t : LruReplacer).
          if in_old
          then record t { old_size = dec_size t.old_size }
          else record t { young_size = dec_size t.young_size })
        (unlink f s)
]

-- `Unpin`
unfoldable pub unpin : ℕ → LruReplacer → LruReplacer
unpin f s = elim (s.nodes f) [
  | some _ ↦ s
  | none ↦ rebalance (record (insert_old f s) { old_size = s.old_size + 1 })
]

-- `Access`
unfoldable pub access : ℕ → LruReplacer → Option LruReplacer
access f s = elim (s.nodes f) [
  | none ↦ some s
  | some in_old ↦
      Option.map
        (λ (t : LruReplacer).
          if in_old
          then rebalance (record (insert_young f (record t { old_size = dec_size t.old_size })) {
            young_size = t.young_size + 1;
          })
          else insert_young f t)
        (unlink f s)
]

-- `Evict`: the victim, if there is one, and the list after.
unfoldable pub evict : LruReplacer → Option (ℕ × LruReplacer)
evict s = elim (split_last s.old) [
  | some (rest, victim) ↦ some (
    victim,
    record s { old = rest; old_size = dec_size s.old_size; nodes = set_node s.nodes victim none },
  )
  | none ↦ elim (split_last s.young) [
    | some (rest, victim) ↦ some (
      victim,
      record s {
        young = rest;
        young_size = dec_size s.young_size;
        nodes = set_node s.nodes victim none;
      },
    )
    | none ↦ none
  ]
]

-- `Size`
unfoldable pub size : LruReplacer → ℕ
size s = s.young_size + s.old_size
