-- ===== src/Executor/Eval.antt =====
-- `Executor::evaluateExpr`, `evaluateWhereClause` and `projectRow` of src/executor/executor.cpp. A
-- column behind the end of its row, where the program reads out of bounds, gives NULL.
pub mod Predicates
pub mod Membership
pub mod Literals
use seeddb.Base.{
  Bool, true, false, not, List, [], ◌∷◌, Option, none, some, Bytes, ltb, ◌&&◌, ◌||◌, if◌then◌else◌,
  length, get_or,
}
use seeddb.Common.LogicalType.{LogicalTypeId, boolean}
use seeddb.Common.Value.{Value, null_value, boolean_value, is_null, as_bool, equals}
use seeddb.Common.Numerics.{Numerics}
use seeddb.Storage.Schema.{Row, Schema, column_index}
use seeddb.Parser.Ast.{
  Expr, literal, column_ref, binary, unary, is_null_expr, aggregate, case_expr, in_expr,
  between_expr, like_expr, coalesce, nullif, function_call, OptExpr, no_expr, an_expr, Exprs,
  no_exprs, more_exprs, Whens, no_whens, more_whens,
}
use seeddb.Executor.Operators.{
  literal_value, binary_value, unary_value, negate_if, between_value, like_value, nullif_value,
}
use seeddb.Executor.Functions.{FunctionInfo, lookup, registry}

abbrev is_boolean : LogicalTypeId → Bool
is_boolean boolean = true
is_boolean _ = false

-- `evaluateWhereClause`, on the value of the clause.
unfoldable pub holds : Value → Bool
unfolding is_null
holds v = if is_null v then false else if is_boolean v.type then as_bool v else true

-- EXPR_COLUMN_REF
unfoldable pub column_value : Schema → Row → Bytes → Value
column_value schema row name = elim (column_index schema name) [
  | none ↦ null_value
  | some i ↦ get_or row i null_value
]

module _ (num : Numerics) where
  -- EXPR_FUNCTION_CALL, on the values of the arguments.
  unfoldable pub call_value : Option FunctionInfo → List Value → Value
  call_value none args = null_value
  call_value (some info) args =
      if ltb (length args) info.min_args || ltb info.max_args (length args)
      then null_value
      else info.impl args

  -- `evaluate_in` is the loop of IN over the values, `evaluate_whens` that of CASE over its WHEN
  -- clauses, given the value of ELSE, `evaluate_first` that of COALESCE, and `evaluate_all` that over a call's arguments.
  unfoldable mutual
    unfolding literal_value column_value binary_value unary_value between_value like_value
        nullif_value call_value

    pub evaluate : Schema → Row → Expr → Value
    evaluate schema row (literal v) = literal_value v
    evaluate schema row (column_ref table column) = column_value schema row column
    evaluate schema row (binary op l r) =
        binary_value num op (evaluate schema row l) (evaluate schema row r)
    evaluate schema row (unary op e) = unary_value num op (evaluate schema row e)
    evaluate schema row (is_null_expr e negated) =
        boolean_value (negate_if negated (is_null (evaluate schema row e)))
    evaluate schema row (aggregate type arg star distinct) = null_value
    evaluate schema row (case_expr whens els) =
        evaluate_whens schema row (evaluate_opt schema row els) whens
    evaluate schema row (in_expr e values negated) =
        let left = evaluate schema row e in
        if is_null left
        then null_value
        else if evaluate_in schema row left values
        then boolean_value (not negated)
        else boolean_value negated
    evaluate schema row (between_expr e low high negated) =
        between_value num (evaluate schema row e) (evaluate schema row low)
          (evaluate schema row high) negated
    evaluate schema row (like_expr str pattern negated) =
        like_value (evaluate schema row str) (evaluate schema row pattern) negated
    evaluate schema row (coalesce args) = evaluate_first schema row args
    evaluate schema row (nullif a b) =
        nullif_value num (evaluate schema row a) (evaluate schema row b)
    evaluate schema row (function_call name args) =
        call_value (lookup (registry num) name) (evaluate_all schema row args)

    pub evaluate_opt : Schema → Row → OptExpr → Value
    evaluate_opt schema row no_expr = null_value
    evaluate_opt schema row (an_expr e) = evaluate schema row e

    pub evaluate_all : Schema → Row → Exprs → List Value
    evaluate_all schema row no_exprs = []
    evaluate_all schema row (more_exprs e es) = evaluate schema row e ∷ evaluate_all schema row es

    pub evaluate_first : Schema → Row → Exprs → Value
    evaluate_first schema row no_exprs = null_value
    evaluate_first schema row (more_exprs e es) =
        let later = evaluate_first schema row es in
        let v = evaluate schema row e in if not (is_null v) then v else later

    pub evaluate_in : Schema → Row → Value → Exprs → Bool
    evaluate_in schema row left no_exprs = false
    evaluate_in schema row left (more_exprs e es) =
        let later = evaluate_in schema row left es in
        let v = evaluate schema row e in
        if is_null v then later else if equals num.tests left v then true else later

    pub evaluate_whens : Schema → Row → Value → Whens → Value
    evaluate_whens schema row els no_whens = els
    evaluate_whens schema row els (more_whens w t rest) =
        let result = evaluate schema row t in
        let later = evaluate_whens schema row els rest in
        let cond = evaluate schema row w in
        if not (is_null cond) && as_bool cond then result else later

  -- `evaluateWhereClause`
  unfoldable pub where_holds : Schema → Row → OptExpr → Bool
  unfolding holds evaluate
  where_holds schema row no_expr = true
  where_holds schema row (an_expr e) = holds (evaluate schema row e)
