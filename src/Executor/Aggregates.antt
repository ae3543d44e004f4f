-- ===== src/Executor/Aggregates.antt =====
-- src/executor/aggregate.h, and the grouping of `Executor::processAggregateQuery` of
-- src/executor/executor.cpp. The unordered containers are lists in the order of insertion; their hash
-- functions, which give equal keys one hash, are left out.
pub mod Extremes
pub mod Having
pub mod Queries
use seeddb.Base.{
  ℕ, suc, ◌+◌, ◌%◌, ◌^◌, Bool, true, false, not, List, [], ◌∷◌, ◌++◌, map, Option, none, some,
  if◌then◌else◌, ◌==◌, ◌&&◌, ◌||◌,
}
use seeddb.Common.LogicalType.{
  LogicalTypeId, sql_null, integer, bigint, float, double, varchar, boolean, unknown,
}
use seeddb.Common.Value.{
  Value, null_value, integer_value, bigint_value, double_value, boolean_value, is_null, as_bool,
  equals, less_than, as_int32, as_int64, as_float, as_double,
}
use seeddb.Common.Numerics.{Numerics}
use seeddb.Storage.Schema.{Row, Schema}
use seeddb.Parser.Ast.{
  OptExpr, no_expr, an_expr, AggregateType, Exprs, no_exprs, more_exprs, BinaryOp, or_op, and_op,
  eq_op, ne_op, bang_eq_op, lt_op, gt_op, le_op, ge_op, add_op, sub_op, concat_op, mul_op, div_op,
  mod_op,
}
use seeddb.Executor.Operators.{to_double, double_at, and_values, or_values, double_arithmetic}
use seeddb.Executor.Eval.{evaluate, evaluate_all, where_holds}

-- The accumulators with their fields: COUNT has `is_star` and the count, COUNT DISTINCT the values, SUM
-- the sum, `has_value` and `is_float`, AVG the sum and the count, MIN and MAX the value and `has_value`.
pub data Accumulator : Type 0 where
  count_accumulator : Bool → ℕ → Accumulator
  distinct_accumulator : List Value → Accumulator
  sum_accumulator : ℕ → Bool → Bool → Accumulator
  avg_accumulator : ℕ → ℕ → Accumulator
  min_accumulator : Value → Bool → Accumulator
  max_accumulator : Value → Bool → Accumulator

-- An `AggregateExpr`.
pub record AggregateExpr : Type 0 where
  pub agg_type : AggregateType
  pub arg : OptExpr
  pub star : Bool
  pub distinct : Bool

-- `createAccumulator`
abbrev accumulator_for : AggregateType → Bool → Bool → Accumulator
accumulator_for AggregateType.count star true = distinct_accumulator []
accumulator_for AggregateType.count star false = count_accumulator star 0
accumulator_for AggregateType.sum star distinct = sum_accumulator 0 false false
accumulator_for AggregateType.avg star distinct = avg_accumulator 0 0
accumulator_for AggregateType.min star distinct = min_accumulator null_value false
accumulator_for AggregateType.max star distinct = max_accumulator null_value false

unfoldable pub create_accumulator : AggregateExpr → Accumulator
create_accumulator agg = accumulator_for agg.agg_type agg.star agg.distinct

abbrev is_floating_sum : LogicalTypeId → Bool → Bool
is_floating_sum float b = true
is_floating_sum double b = true
is_floating_sum _ b = b

module _ (num : Numerics) where
  -- `unordered_set::insert`
  unfoldable pub insert_value : Value → List Value → List Value
  insert_value v [] = v ∷ []
  insert_value v (u ∷ us) =
      let rest = insert_value v us in if equals num.tests u v then u ∷ us else u ∷ rest

  -- `sum_ += …`, by the value's type; a value of any other type adds nothing.
  abbrev add_value : LogicalTypeId → ℕ → Value → ℕ
  add_value integer sum v = num.add64 sum (num.of_int32 (as_int32 v))
  add_value bigint sum v = num.add64 sum (num.of_int64 (as_int64 v))
  add_value float sum v = num.add64 sum (num.of_float (as_float v))
  add_value double sum v = num.add64 sum (as_double v)
  add_value _ sum v = sum

  -- `accumulate`
  unfoldable pub accumulate : Accumulator → Value → Accumulator
  unfolding is_null insert_value
  accumulate (count_accumulator star n) v =
      if star
      then count_accumulator star (n + 1)
      else if not (is_null v)
      then count_accumulator star (n + 1)
      else count_accumulator star n
  accumulate (distinct_accumulator us) v =
      if not (is_null v) then distinct_accumulator (insert_value v us) else distinct_accumulator us
  accumulate (sum_accumulator sum has is_float) v =
      if is_null v
      then sum_accumulator sum has is_float
      else sum_accumulator (add_value v.type sum v) true (is_floating_sum v.type is_float)
  accumulate (avg_accumulator sum n) v =
      if is_null v then avg_accumulator sum n else avg_accumulator (add_value v.type sum v) (n + 1)
  accumulate (min_accumulator m has) v =
      if is_null v
      then min_accumulator m has
      else if not has
      then min_accumulator v true
      else if less_than num.tests v m
      then min_accumulator v has
      else min_accumulator m has
  accumulate (max_accumulator m has) v =
      if is_null v
      then max_accumulator m has
      else if not has
      then max_accumulator v true
      else if less_than num.tests m v
      then max_accumulator v has
      else max_accumulator m has

  abbrev size : List Value → ℕ
  size [] = 0
  size (v ∷ vs) = suc (size vs)

  -- `finalize`
  unfoldable pub finalize : Accumulator → Value
  finalize (count_accumulator star n) = integer_value (n % 2 ^ 32)
  finalize (distinct_accumulator us) = integer_value (size us % 2 ^ 32)
  finalize (sum_accumulator sum has is_float) =
      if not has
      then null_value
      else if is_float
      then double_value sum
      else bigint_value (num.to_int64 sum)
  finalize (avg_accumulator sum n) =
      if n == 0 then null_value else double_value (num.div64 sum (num.of_int64 n))
  finalize (min_accumulator m has) = if not has then null_value else m
  finalize (max_accumulator m has) = if not has then null_value else m

  -- `GroupKeyEqual`
  unfoldable pub group_key_equal : List Value → List Value → Bool
  group_key_equal [] [] = true
  group_key_equal [] (b ∷ bs) = false
  group_key_equal (a ∷ as_key) [] = false
  group_key_equal (a ∷ as_key) (b ∷ bs) =
      let rest = group_key_equal as_key bs in if not (equals num.tests a b) then false else rest

  -- The value that a row gives to an aggregate.
  unfoldable pub aggregate_input : Schema → Row → AggregateExpr → Value
  unfolding evaluate
  aggregate_input schema row agg =
      if agg.star
      then integer_value 1
      else elim agg.arg [ no_expr ↦ null_value | an_expr e ↦ evaluate num schema row e ]

  -- The loop over the aggregates of one group.
  unfoldable pub accumulate_row :
      Schema → Row → List AggregateExpr → List Accumulator → List Accumulator
  unfolding accumulate aggregate_input
  accumulate_row schema row [] accs = accs
  accumulate_row schema row (agg ∷ aggs) [] = []
  accumulate_row schema row (agg ∷ aggs) (acc ∷ accs) =
      accumulate acc (aggregate_input schema row agg) ∷ accumulate_row schema row aggs accs

  abbrev Groups : Type 0
  Groups = List (List Value × List Accumulator)

  -- The group of the key, made from the template if there is none, takes the row.
  unfoldable pub group_row : Schema → List AggregateExpr → List Value → Row → Groups → Groups
  unfolding group_key_equal accumulate_row create_accumulator
  group_row schema aggs key row [] =
      (key, accumulate_row schema row aggs (map create_accumulator aggs)) ∷ []
  group_row schema aggs key row ((k, accs) ∷ groups) =
      let rest = group_row schema aggs key row groups in
      if group_key_equal k key
      then (k, accumulate_row schema row aggs accs) ∷ groups
      else (k, accs) ∷ rest

  -- The scan: the groups after the rows that pass WHERE. `extractGroupKey` is the values of the GROUP
  -- BY expressions, and the empty key where there are none.
  unfoldable pub group_rows :
      Schema → OptExpr → Exprs → List AggregateExpr → List Row → Groups → Groups
  unfolding group_row evaluate_all where_holds
  group_rows schema where_clause group_by aggs [] groups = groups
  group_rows schema where_clause group_by aggs (row ∷ rows) groups =
      group_rows schema where_clause group_by aggs rows (
        if where_holds num schema row where_clause
        then group_row schema aggs (evaluate_all num schema row group_by) row groups
        else groups)

  -- An operator of `evaluateExprWithAggregates` on the values of its operands, that are not NULL.
  unfoldable pub strict_group_binary : BinaryOp → Value → Value → Value
  unfolding double_arithmetic to_double
  strict_group_binary eq_op l r = boolean_value (equals num.tests l r)
  strict_group_binary ne_op l r = boolean_value (not (equals num.tests l r))
  strict_group_binary bang_eq_op l r = boolean_value (not (equals num.tests l r))
  strict_group_binary lt_op l r = boolean_value (less_than num.tests l r)
  strict_group_binary gt_op l r = boolean_value (less_than num.tests r l)
  strict_group_binary le_op l r = boolean_value (less_than num.tests l r || equals num.tests l r)
  strict_group_binary ge_op l r = boolean_value (less_than num.tests r l || equals num.tests l r)
  strict_group_binary op l r = double_arithmetic num op (to_double num l) (to_double num r)

  unfoldable pub group_binary_value : BinaryOp → Value → Value → Value
  unfolding and_values or_values strict_group_binary is_null
  group_binary_value and_op l r = and_values l r
  group_binary_value or_op l r = or_values l r
  group_binary_value op l r =
      if is_null l || is_null r then null_value else strict_group_binary op l r

-- The filter of HAVING on the value of its clause.
unfoldable pub having_holds : Value → Bool
unfolding is_null
having_holds v = if is_null v || not (as_bool v) then false else true
