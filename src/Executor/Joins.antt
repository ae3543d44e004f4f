-- ===== src/Executor/Joins.antt =====
-- The joins of src/executor/executor.cpp: `crossJoinRows`, `innerJoinRows`, `buildJoinedSchema` and
-- the loop of `processJoins`.
pub mod Pairs
pub mod Columns
use seeddb.Base.{List, [], ◌∷◌, ◌++◌, map, Option, none, some, if◌then◌else◌}
use seeddb.Common.Numerics.{Numerics}
use seeddb.Storage.Schema.{Row, ColumnSchema, Schema, make_schema}
use seeddb.Parser.Ast.{OptExpr, no_expr, an_expr}
use seeddb.Executor.Eval.{where_holds}

-- The pairs of one left row with every right row.
unfoldable pub pair_with : Row → List Row → List (Row × Row)
pair_with left [] = []
pair_with left (right ∷ rights) = (left, right) ∷ pair_with left rights

unfoldable pub cross_join_rows : List Row → List Row → List (Row × Row)
unfolding pair_with
cross_join_rows [] rights = []
cross_join_rows (left ∷ lefts) rights = pair_with left rights ++ cross_join_rows lefts rights

-- `combined_schema`
unfoldable pub combined_schema : Schema → Schema → Schema
unfolding make_schema
combined_schema left right = make_schema (left.columns ++ right.columns)

module _ (num : Numerics) (condition : OptExpr) (combined : Schema) where
  unfoldable pub matches_with : Row → List Row → List (Row × Row)
  unfolding where_holds
  matches_with left [] = []
  matches_with left (right ∷ rights) =
      let rest = matches_with left rights in
      if where_holds num combined (left ++ right) condition then (left, right) ∷ rest else rest

  unfoldable pub inner_join_loop : List Row → List Row → List (Row × Row)
  unfolding matches_with
  inner_join_loop [] rights = []
  inner_join_loop (left ∷ lefts) rights = matches_with left rights ++ inner_join_loop lefts rights

unfoldable pub inner_join_rows :
    Numerics → List Row → List Row → OptExpr → Schema → Schema → List (Row × Row)
unfolding inner_join_loop combined_schema
inner_join_rows num lefts rights condition left_schema right_schema =
    inner_join_loop num condition (combined_schema left_schema right_schema) lefts rights

-- `enum class JoinType`
pub data JoinType : Type 0 where
  cross inner left_outer right_outer : JoinType

-- A `JoinClause`, its table looked up: what `table_schemas_` and the iterator give for it.
pub record Join : Type 0 where
  pub join_type : JoinType
  pub schema : Schema
  pub rows : List Row
  pub condition : OptExpr

-- `buildJoinedSchema`
unfoldable pub joined_columns : List ColumnSchema → List Join → List ColumnSchema
joined_columns columns [] = columns
joined_columns columns (j ∷ js) = joined_columns (columns ++ j.schema.columns) js

unfoldable pub build_joined_schema : Schema → List Join → Schema
unfolding joined_columns make_schema
build_joined_schema base joins = make_schema (joined_columns base.columns joins)

abbrev concat_pair : Row × Row → Row
concat_pair p = p.0 ++ p.1

module _ (num : Numerics) where
  -- `joined_pairs` of one clause; `none` is the unsupported type.
  unfoldable pub join_pairs :
      JoinType → OptExpr → List Row → List Row → Schema → Schema → Option (List (Row × Row))
  unfolding cross_join_rows inner_join_rows
  join_pairs cross condition lefts rights ls rs = some (cross_join_rows lefts rights)
  join_pairs inner no_expr lefts rights ls rs = some (cross_join_rows lefts rights)
  join_pairs inner (an_expr e) lefts rights ls rs =
      some (inner_join_rows num lefts rights (an_expr e) ls rs)
  join_pairs left_outer condition lefts rights ls rs = none
  join_pairs right_outer condition lefts rights ls rs = none

  -- The loop over the clauses: the rows so far, and the schema they are read by.
  unfoldable pub join_loop : Schema → Schema → List Row → List Join → Option (List Row)
  unfolding join_pairs
  join_loop joined left_schema rows [] = some rows
  join_loop joined left_schema rows (j ∷ js) =
      elim (join_pairs j.join_type j.condition rows j.rows left_schema j.schema) [
        | none ↦ none
        | some pairs ↦ join_loop joined joined (map concat_pair pairs) js
      ]

  -- The rows of the FROM clause, joined.
  unfoldable pub process_joins : Schema → List Row → List Join → Option (List Row)
  unfolding join_loop build_joined_schema
  process_joins base rows joins = join_loop (build_joined_schema base joins) base rows joins
