-- ===== src/Executor/Rows.antt =====
-- The result rows of a query in src/executor/executor.cpp: DISTINCT, ORDER BY's comparison of values,
-- LIMIT with OFFSET, and the cursor that `hasNext` and `next` move.
pub mod Distinct
pub mod Window
use seeddb.Base.{
  ℕ, zero, suc, ◌+◌, ◌-◌, ◌^◌, ◌%◌, min, Bool, true, false, not, List, [], ◌∷◌, ◌++◌, Option, none,
  some, ltb, leb, ◌&&◌, ◌||◌, if◌then◌else◌, length, get_elem?,
}
use seeddb.Base.Int.{ℤ, pos, negsuc}
use seeddb.Common.Value.{Value, FloatOps, is_null, equals, less_than}
use seeddb.Storage.Schema.{Row}

module _ (fp : FloatOps) where
  -- The body of the loop of `rowsEqual`.
  unfoldable pub cells_equal : Value → Value → Bool
  unfolding is_null
  cells_equal a b =
      if is_null a && is_null b
      then true
      else if is_null a || is_null b
      then false
      else equals fp a b

  unfoldable pub rows_equal : Row → Row → Bool
  unfolding cells_equal
  rows_equal [] [] = true
  rows_equal [] (b ∷ bs) = false
  rows_equal (a ∷ as_row) [] = false
  rows_equal (a ∷ as_row) (b ∷ bs) =
      let rest = rows_equal as_row bs in if cells_equal a b then rest else false

  -- `compareValues`: NULLs are last.
  unfoldable pub compare_values : Value → Value → ℤ
  unfolding is_null
  compare_values a b =
      if is_null a && is_null b
      then pos 0
      else if is_null a
      then pos 1
      else if is_null b
      then negsuc 0
      else if less_than fp a b
      then negsuc 0
      else if less_than fp b a
      then pos 1
      else pos 0

  -- The inner loop of `applyDistinct`.
  unfoldable pub is_duplicate : Row → List Row → Bool
  unfolding rows_equal
  is_duplicate row [] = false
  is_duplicate row (u ∷ us) =
      let rest = is_duplicate row us in if rows_equal row u then true else rest

  -- The outer loop, with `unique_rows` so far.
  unfoldable pub distinct_loop : List Row → List Row → List Row
  unfolding is_duplicate
  distinct_loop unique [] = unique
  distinct_loop unique (r ∷ rs) =
      distinct_loop (if is_duplicate r unique then unique else unique ++ r ∷ []) rs

  unfoldable pub apply_distinct : Bool → List Row → List Row
  unfolding distinct_loop
  apply_distinct is_distinct rows = if not is_distinct then rows else distinct_loop [] rows

-- The loop from index `i` on, for `n` indices.
unfoldable pub copy_rows : List Row → ℕ → ℕ → List Row
copy_rows rows i zero = []
copy_rows rows i (suc n) = elim (get_elem? rows i) [
  | none ↦ []
  | some row ↦ row ∷ copy_rows rows (i + 1) n
]

-- LIMIT and OFFSET are `int64_t` patterns, read as `size_t`, whose sum wraps.
unfoldable pub apply_limit_offset : Option ℕ → Option ℕ → List Row → List Row
unfolding copy_rows
apply_limit_offset none none rows = rows
apply_limit_offset limit? offset? rows =
    let offset : ℕ = elim offset? [ none ↦ 0 | some n ↦ n ] in
    let limit : ℕ = elim limit? [ none ↦ length rows | some n ↦ n ] in
    let end_index = min ((offset + limit) % 2 ^ 64) (length rows) in
    if leb (length rows) offset then [] else copy_rows rows offset (end_index - offset)

-- `result_rows_` and `current_row_index_`
pub record Cursor : Type 0 where
  pub result_rows : List Row
  pub current_row_index : ℕ

-- `hasNext`
unfoldable pub has_next : Cursor → Bool
has_next c = ltb c.current_row_index (length c.result_rows)

-- `next`: the row and the cursor behind it; `none` is the error. The row that is moved out is not read
-- again, since the index only grows.
unfoldable pub next : Cursor → Option Row × Cursor
unfolding has_next
next c = if not (has_next c) then (none, c) else (
  get_elem? c.result_rows c.current_row_index,
  record c { current_row_index = c.current_row_index + 1 },
)
