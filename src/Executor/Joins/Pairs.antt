-- ===== src/Executor/Joins/Pairs.antt =====
-- `Executor::innerJoinRows` and `crossJoinRows` of src/executor/executor.cpp: the inner join is a
-- filtered cross join.
use seeddb.Base.{
  ◌*◌, Bool, List, [], ◌∷◌, ◌++◌, if◌then◌else◌, ◌≡◌, refl, sym, arith, Bool-cases, inl, inr,
  length, length-append,
}
use seeddb.Common.Numerics.{Numerics}
use seeddb.Storage.Schema.{Row, Schema}
use seeddb.Parser.Ast.{OptExpr}
use seeddb.Executor.Eval.{where_holds}
use seeddb.Executor.Joins.{
  pair_with, cross_join_rows, combined_schema, matches_with, inner_join_loop, inner_join_rows,
}

abbrev pub filter {ℓ} : {A : Type ℓ} → (A → Bool) → List A → List A
filter p [] = []
filter p (x ∷ xs) = let rest = filter p xs in if p x then x ∷ rest else rest

filter-append {ℓ} :
    {A : Type ℓ} (p : A → Bool) (xs ys : List A) → filter p (xs ++ ys) ≡ filter p xs ++ filter p ys
filter-append p [] ys = refl
filter-append p (x ∷ xs) ys = elim (Bool-cases (p x)) [
  | inl e ↦ ground (arith, filter-append p xs ys)
  | inr e ↦ ground (arith, filter-append p xs ys)
]

length-pair_with : (left : Row) (rights : List Row) → length (pair_with left rights) ≡ length rights
unfolding pair_with
length-pair_with left [] = refl
length-pair_with left (r ∷ rs) = omega (arith, length-pair_with left rs)

length-cross_join_rows :
    (lefts rights : List Row) → length (cross_join_rows lefts rights) ≡ length lefts * length rights
unfolding cross_join_rows
length-cross_join_rows [] rights = omega arith
length-cross_join_rows (l ∷ lefts) rights = grind (
  arith,
  length-append (pair_with l rights) (cross_join_rows lefts rights),
  length-pair_with l rights,
  length-cross_join_rows lefts rights,
)

module _ (num : Numerics) (condition : OptExpr) (combined : Schema) where
  abbrev pub joins_on : Row × Row → Bool
  joins_on p = where_holds num combined (p.0 ++ p.1) condition

  matches_with-filter :
      (left : Row) (rights : List Row)
      → matches_with num condition combined left rights ≡ filter joins_on (pair_with left rights)
  unfolding matches_with pair_with
  matches_with-filter left [] = refl
  matches_with-filter left (r ∷ rs) = ground (arith, matches_with-filter left rs)

  inner_join_loop-filter :
      (lefts rights : List Row)
      → inner_join_loop num condition combined lefts rights
        ≡ filter joins_on (cross_join_rows lefts rights)
  unfolding inner_join_loop cross_join_rows
  inner_join_loop-filter [] rights = refl
  inner_join_loop-filter (l ∷ lefts) rights =
      rw (matches_with-filter l rights, inner_join_loop-filter lefts rights)
        (sym (filter-append joins_on (pair_with l rights) (cross_join_rows lefts rights)))

-- The inner join is the cross join, in its order, without the pairs whose joined row does not meet
-- the condition; the cross join has a pair for each left and right row.
pub inner_join_rows-filter :
    (num : Numerics) (lefts rights : List Row) (condition : OptExpr) (ls rs : Schema)
    → (inner_join_rows num lefts rights condition ls rs
        ≡ filter (joins_on num condition (combined_schema ls rs)) (cross_join_rows lefts rights))
      × (length (cross_join_rows lefts rights) ≡ length lefts * length rights)
unfolding inner_join_rows
inner_join_rows-filter num lefts rights condition ls rs = (
  inner_join_loop-filter num condition (combined_schema ls rs) lefts rights,
  length-cross_join_rows lefts rights,
)
