-- ===== src/Executor/Rows/Window.antt =====
-- LIMIT with OFFSET, and the cursor over the result rows, of src/executor/executor.cpp.
use seeddb.Base.{
  ℕ, zero, suc, ◌+◌, ◌-◌, ◌<◌, ◌≤◌, ◌^◌, ◌%◌, min, true, List, [], ◌∷◌, ◌++◌, map, Option, none,
  some, ◌≡◌, inl, inr, refl, ap, ◌∙◌, sym, arith, Option-cases, length, take, drop, le→leb,
  drop-eq_cons, lt→ltb, le→leb_false, replicate, get_elem?, get_elem?-none-drop,
  get_elem?-some-drop, take-length_le, length-drop, le_or_lt, if◌then◌else◌, leb,
}
use native.Mathlib.Nat.{zero-add, suc-add}
use seeddb.Storage.Schema.{Row}
use seeddb.Executor.Rows.{copy_rows, apply_limit_offset, Cursor, has_next, next}

drop_next : (rows : List Row) (i : ℕ) → drop (i + 1) rows ≡ drop (suc i) rows
drop_next rows i = let e : i + 1 ≡ suc i = omega arith in ap (λ k. drop k rows) e

pub copy_rows-take : (rows : List Row) (i n : ℕ) → copy_rows rows i n ≡ take n (drop i rows)
unfolding copy_rows
copy_rows-take rows i zero = refl
copy_rows-take rows i (suc n) =
    let next_drop : drop (i + 1) rows ≡ drop (suc i) rows = drop_next rows i in
    elim (Option-cases (get_elem? rows i)) [
      | inl e ↦ ground (arith, get_elem?-none-drop rows i e)
      | inr (x, e) ↦
          ground (arith, get_elem?-some-drop rows i e, copy_rows-take rows (i + 1) n, next_drop)
    ]

-- The last branch of `applyLimitOffset`, with both numbers given.
window-take :
    (limit offset : ℕ) (rows : List Row)
    → limit + offset < 2 ^ 64
    → (if leb (length rows) offset
        then []
        else copy_rows rows offset (min ((offset + limit) % 2 ^ 64) (length rows) - offset))
      ≡ take limit (drop offset rows)
window-take limit offset rows fits = elim (le_or_lt (length rows) offset) [
  | inl h ↦
      let gone : drop offset rows ≡ [] = empty _ (omega (arith, length-drop offset rows)) in
      rw (le→leb _ _ h, gone) (sym (take-length_le limit [] (omega arith)))
  | inr h ↦
      rw (le→leb_false _ _ h, copy_rows-take rows offset _)
        (elim (le_or_lt limit (length rows - offset)) [
          | inl k ↦ ap (λ n. take n (drop offset rows)) (ground arith)
          | inr k ↦
              take-length_le _ _ (ground (arith, length-drop offset rows))
              ∙ sym (take-length_le limit _ (omega (arith, length-drop offset rows)))
        ])
]
  where
    empty : (xs : List Row) → length xs ≡ 0 → xs ≡ []
    empty [] e = refl
    empty (x ∷ xs) e = absurd (omega arith)

-- LIMIT and OFFSET give the rows after the first `offset`, and `limit` of them at most; without LIMIT
-- all of them, and without OFFSET from the first row on. The limit, the number of rows and the offset
-- are such that the sum with the offset fits in 64 bits.
pub apply_limit_offset-take :
    (limit offset : ℕ) (rows : List Row)
    → limit + offset < 2 ^ 64
    → length rows + offset < 2 ^ 64
    → (apply_limit_offset (some limit) (some offset) rows ≡ take limit (drop offset rows))
      × (apply_limit_offset none (some offset) rows ≡ drop offset rows)
      × (apply_limit_offset (some limit) none rows ≡ take limit rows)
unfolding apply_limit_offset
apply_limit_offset-take limit offset rows fits fits_all = (
  window-take limit offset rows fits,
  window-take (length rows) offset rows fits_all
      ∙ take-length_le _ _ (omega (arith, length-drop offset rows)),
  window-take limit 0 rows (omega arith),
)

-- The results of that many calls of `next`.
abbrev pub nexts : ℕ → Cursor → List (Option Row)
nexts zero c = []
nexts (suc n) c = (next c).0 ∷ nexts n (next c).1

nexts-behind :
    (k : ℕ) (rows : List Row) (i : ℕ)
    → length rows ≤ i
    → nexts k (record { result_rows = rows; current_row_index = i }) ≡ replicate k none
unfolding next has_next
nexts-behind zero rows i h = refl
nexts-behind (suc k) rows i h = ground (arith, nexts-behind k rows i)

nexts-from :
    (k : ℕ) (rows : List Row) (i : ℕ) (ys : List Row)
    → drop i rows ≡ ys
    → nexts (length ys + k) (record { result_rows = rows; current_row_index = i })
      ≡ map some ys ++ replicate k none
unfolding next has_next
nexts-from k rows i [] e =
    rw zero-add (nexts-behind k rows i (omega (arith, length-drop i rows, ap length e)))
nexts-from k rows i (y ∷ ys) e =
    let (here, later) = drop-eq_cons rows i e in
    let inside : has_next (record { result_rows = rows; current_row_index = i }) ≡ true =
      lt→ltb _ _ (omega (arith, length-drop i rows, ap length e)) in
    let later' : drop (i + 1) rows ≡ ys = drop_next rows i ∙ later in
    rw suc-add (rw (inside, here) (ap (◌∷◌ (some y)) (nexts-from k rows (i + 1) ys later')))

-- From the first row on, the calls of `next` give the rows in their order, and each further call the
-- error.
pub nexts-rows :
    (k : ℕ) (rows : List Row)
    → nexts (length rows + k) (record { result_rows = rows; current_row_index = 0 })
      ≡ map some rows ++ replicate k none
nexts-rows k rows = nexts-from k rows 0 rows refl
