-- ===== src/Executor/Aggregates/Queries.antt =====
-- Which queries are aggregate queries, and which of these are valid: `exprHasAggregates`,
-- `collectAggregates`, `validateAggregateQuery` and their helpers in src/executor/executor.cpp.
use seeddb.Base.{
  Bool, true, false, not, List, [], ◌∷◌, ◌++◌, none, some, Bytes, if◌then◌else◌, ◌&&◌, ◌||◌, ◌≡◌,
  refl,
}
use seeddb.Common.LogicalType.{LogicalTypeId, integer, double}
use seeddb.Common.Value.{str_equal}
use seeddb.Storage.Schema.{Schema, has_column, column}
use seeddb.Parser.Ast.{
  Expr, column_ref, binary, unary, is_null_expr, aggregate, OptExpr, no_expr, an_expr, Exprs,
  no_exprs, more_exprs, AggregateType, count, min, max,
}
use seeddb.Executor.Select.{SelectItem, OrderByItem, SelectStmt}
use seeddb.Executor.Aggregates.{AggregateExpr}

unfoldable pub expr_has_aggregates : Expr → Bool
expr_has_aggregates (aggregate type arg star distinct) = true
expr_has_aggregates (binary op l r) = expr_has_aggregates l || expr_has_aggregates r
expr_has_aggregates (unary op e) = expr_has_aggregates e
expr_has_aggregates (is_null_expr e negated) = expr_has_aggregates e
expr_has_aggregates _ = false

-- `collectAggregatesFromExpr`: an aggregate, and then what its argument holds.
unfoldable mutual
  pub collect_from_expr : Expr → List AggregateExpr
  collect_from_expr (aggregate type arg star distinct) =
      record { agg_type = type; arg = arg; star = star; distinct = distinct } ∷ collect_from_opt arg
  collect_from_expr (binary op l r) = collect_from_expr l ++ collect_from_expr r
  collect_from_expr (unary op e) = collect_from_expr e
  collect_from_expr (is_null_expr e negated) = collect_from_expr e
  collect_from_expr _ = []

  pub collect_from_opt : OptExpr → List AggregateExpr
  collect_from_opt no_expr = []
  collect_from_opt (an_expr e) = collect_from_expr e

abbrev collect_from_items : List SelectItem → List AggregateExpr
collect_from_items [] = []
collect_from_items (item ∷ items) = collect_from_expr item.expr ++ collect_from_items items

-- `collectAggregates`
unfoldable pub collect_aggregates : SelectStmt → OptExpr → List AggregateExpr
unfolding collect_from_expr collect_from_opt
collect_aggregates stmt having = collect_from_items stmt.select_items ++ collect_from_opt having

abbrev any_aggregates : List SelectItem → Bool
any_aggregates [] = false
any_aggregates (item ∷ items) = expr_has_aggregates item.expr || any_aggregates items

abbrev opt_has_aggregates : OptExpr → Bool
opt_has_aggregates no_expr = false
opt_has_aggregates (an_expr e) = expr_has_aggregates e

-- `hasAggregates`
unfoldable pub has_aggregates : SelectStmt → OptExpr → Bool
unfolding expr_has_aggregates
has_aggregates stmt having = any_aggregates stmt.select_items || opt_has_aggregates having

abbrev is_column : Bytes → Expr → Bool
is_column name (column_ref table column) = str_equal column name
is_column name _ = false

unfoldable pub is_column_in_group_by : Bytes → Exprs → Bool
is_column_in_group_by name no_exprs = false
is_column_in_group_by name (more_exprs e es) = is_column name e || is_column_in_group_by name es

abbrev has_group_by : Exprs → Bool
has_group_by no_exprs = false
has_group_by (more_exprs e es) = true

-- `validateExprGroupByConstraint` in a query with aggregates or groups.
unfoldable pub validate_grouped : Exprs → Expr → Bool
unfolding is_column_in_group_by
validate_grouped group_by (column_ref table column) = is_column_in_group_by column group_by
validate_grouped group_by (binary op l r) =
    validate_grouped group_by l && validate_grouped group_by r
validate_grouped group_by (unary op e) = validate_grouped group_by e
validate_grouped group_by _ = true

unfoldable pub validate_expr_group_by_constraint : Exprs → Bool → Expr → Bool
unfolding validate_grouped
validate_expr_group_by_constraint group_by has_aggs e =
    if not has_aggs && not (has_group_by group_by) then true else validate_grouped group_by e

abbrev is_summable : LogicalTypeId → Bool
is_summable integer = true
is_summable double = true
is_summable _ = false

-- The argument of SUM or AVG.
unfoldable pub validate_sum_argument : Schema → OptExpr → Bool
unfolding has_column column
validate_sum_argument schema no_expr = false
validate_sum_argument schema (an_expr (column_ref table name)) = elim (column schema name) [
  | none ↦ true
  | some c ↦ is_summable c.type
]
validate_sum_argument schema (an_expr _) = true

abbrev validate_by_type : AggregateType → Schema → OptExpr → Bool
validate_by_type count schema arg = true
validate_by_type min schema arg = true
validate_by_type max schema arg = true
validate_by_type _ schema arg = validate_sum_argument schema arg

unfoldable pub validate_aggregate_type_constraint : Schema → AggregateExpr → Bool
unfolding validate_sum_argument
validate_aggregate_type_constraint schema agg = validate_by_type agg.agg_type schema agg.arg

abbrev all_types : Schema → List AggregateExpr → Bool
all_types schema [] = true
all_types schema (a ∷ aggs) = validate_aggregate_type_constraint schema a && all_types schema aggs

abbrev all_items : Exprs → Bool → List SelectItem → Bool
all_items group_by has_aggs [] = true
all_items group_by has_aggs (item ∷ items) =
    validate_expr_group_by_constraint group_by has_aggs item.expr
    && all_items group_by has_aggs items

abbrev all_orders : Exprs → Bool → List OrderByItem → Bool
all_orders group_by has_aggs [] = true
all_orders group_by has_aggs (item ∷ items) =
    validate_expr_group_by_constraint group_by has_aggs item.expr
    && all_orders group_by has_aggs items

abbrev valid_having : Exprs → Bool → OptExpr → Bool
valid_having group_by has_aggs no_expr = true
valid_having group_by has_aggs (an_expr e) = validate_expr_group_by_constraint group_by has_aggs e

abbrev is_empty : List AggregateExpr → Bool
is_empty [] = true
is_empty (a ∷ aggs) = false

-- `validateAggregateQuery`: whether it passes.
unfoldable pub validate_aggregate_query : Schema → SelectStmt → Exprs → OptExpr → Bool
unfolding collect_aggregates validate_aggregate_type_constraint validate_expr_group_by_constraint
validate_aggregate_query schema stmt group_by having =
    let aggregates = collect_aggregates stmt having in
    let has_aggs = not (is_empty aggregates) in
    if is_empty aggregates && not (has_group_by group_by)
    then true
    else all_types schema aggregates
      && all_items group_by has_aggs stmt.select_items
      && valid_having group_by has_aggs having
      && all_orders group_by has_aggs stmt.order_by

is_empty-append : (xs ys : List AggregateExpr) → is_empty (xs ++ ys) ≡ (is_empty xs && is_empty ys)
is_empty-append [] ys = refl
is_empty-append (x ∷ xs) ys = refl

or_not : (a b : Bool) → (not a || not b) ≡ not (a && b)
or_not true b = refl
or_not false b = refl

-- An expression has aggregates exactly if some are collected from it.
expr_has_aggregates-collect :
    (e : Expr) → expr_has_aggregates e ≡ not (is_empty (collect_from_expr e))
unfolding expr_has_aggregates collect_from_expr
expr_has_aggregates-collect (binary op l r) =
    rw
      (
        expr_has_aggregates-collect l,
        expr_has_aggregates-collect r,
        is_empty-append (collect_from_expr l) (collect_from_expr r),
      )
      (or_not (is_empty (collect_from_expr l)) (is_empty (collect_from_expr r)))
expr_has_aggregates-collect (unary op e) = expr_has_aggregates-collect e
expr_has_aggregates-collect (is_null_expr e negated) = expr_has_aggregates-collect e
expr_has_aggregates-collect _ = refl

items_has-collect :
    (items : List SelectItem) → any_aggregates items ≡ not (is_empty (collect_from_items items))
items_has-collect [] = refl
items_has-collect (item ∷ items) =
    rw
      (
        expr_has_aggregates-collect item.expr,
        items_has-collect items,
        is_empty-append (collect_from_expr item.expr) (collect_from_items items),
      )
      (or_not (is_empty (collect_from_expr item.expr)) (is_empty (collect_from_items items)))

opt_has-collect : (o : OptExpr) → opt_has_aggregates o ≡ not (is_empty (collect_from_opt o))
unfolding collect_from_opt
opt_has-collect no_expr = refl
opt_has-collect (an_expr e) = expr_has_aggregates-collect e

-- A query is an aggregate query by its select list or its HAVING clause exactly if there is an aggregate
-- to accumulate.
pub has_aggregates-collect_aggregates :
    (stmt : SelectStmt) (having : OptExpr)
    → has_aggregates stmt having ≡ not (is_empty (collect_aggregates stmt having))
unfolding has_aggregates collect_aggregates
has_aggregates-collect_aggregates stmt having =
    rw
      (
        items_has-collect stmt.select_items,
        opt_has-collect having,
        is_empty-append (collect_from_items stmt.select_items) (collect_from_opt having),
      )
      (or_not (is_empty (collect_from_items stmt.select_items))
        (is_empty (collect_from_opt having)))
