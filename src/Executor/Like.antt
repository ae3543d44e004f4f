-- ===== src/Executor/Like.antt =====
-- `Executor::matchLikePattern` of src/executor/executor.cpp: a table with a row for each prefix of
-- the string and a cell for each prefix of the pattern.
pub mod Matches
use seeddb.Base.{ℕ, Bool, true, false, List, [], ◌∷◌, Bytes, ◌==◌, ◌&&◌, ◌||◌, if◌then◌else◌}

-- The cells `dp[0][1..n]`, `left` being the cell before them.
pub first_cells : Bool → Bytes → List Bool
first_cells left [] = []
first_cells left (p ∷ ps) =
    let cell = if p == b'%' then left else false in cell ∷ first_cells cell ps

-- The cells `dp[i][1..n]` for the character `c`: `left` is the cell before them, `diag` the one above
-- that, and `above` holds the cells above them.
pub next_cells : ℕ → Bool → Bool → List Bool → Bytes → List Bool
next_cells c left diag above [] = []
next_cells c left diag [] (p ∷ ps) = []
next_cells c left diag (up ∷ above) (p ∷ ps) =
    let cell = if p == b'%' then left || up else if p == b'_' then diag else diag && c == p in
    cell ∷ next_cells c cell up above ps

-- The rows `dp[1..m]`, from the row above: its first cell and the others.
pub fill : Bool → List Bool → Bytes → Bytes → List Bool
fill corner cells [] pattern = corner ∷ cells
fill corner cells (c ∷ str) pattern =
    fill false (next_cells c false corner cells pattern) str pattern

pub last_cell : List Bool → Bool
last_cell [] = false
last_cell (x ∷ []) = x
last_cell (x ∷ y ∷ xs) = last_cell (y ∷ xs)

-- `dp[m][n]`
unfoldable pub match_like_pattern : Bytes → Bytes → Bool
unfolding fill first_cells next_cells last_cell
match_like_pattern str pattern = last_cell (fill true (first_cells true pattern) str pattern)
