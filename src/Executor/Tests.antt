-- ===== src/Executor/Tests.antt =====
-- Runs of the executor's parts of src/executor, and their theorems at concrete inputs.
use seeddb.Base.{
  ◌+◌, ◌-◌, ◌*◌, ◌/◌, ◌%◌, ◌^◌, Bool, true, false, List, [], ◌∷◌, ◌++◌, map, none, some, ◌≡◌, ◌↔◌,
  refl, arith, codes, ltb, leb, ◌==◌, length, take, drop, replicate, All, Any, inl, inr,
}
use mathlib.Core.List.Permᴰ
use mathlib.Core.List.{Permᴰ}
use seeddb.Common.LogicalType.{integer}
use seeddb.Common.Value.{
  Value, null_value, integer_value, bigint_value, varchar_value, boolean_value, is_null,
}
use seeddb.Common.Numerics.{Numerics}
use seeddb.Parser.Token.{TokenValue}
use seeddb.Parser.Ast.{Expr, literal, column_ref, binary, eq_op, gt_op, an_expr, is_null_expr}
use seeddb.Storage.Schema.{Row, ColumnSchema, make_schema, column_index, has_column}
use seeddb.Executor.Like.{match_like_pattern}
use seeddb.Executor.Like.Matches.{Matches, match_like_pattern-Matches}
use seeddb.Executor.Eval.{evaluate, where_holds, column_value}
use seeddb.Executor.Eval.Predicates.{ConnectivesOutcome, where_holds-connectives}
use seeddb.Executor.Eval.Literals.{IntLiteralsOutcome, int_literals-never_in}
use seeddb.Executor.Rows.{apply_distinct, apply_limit_offset}
use seeddb.Executor.Rows.Distinct.{DistinctOutcome, apply_distinct_lem}
use seeddb.Executor.Rows.Window.{nexts, nexts-rows, apply_limit_offset-take}
use seeddb.Executor.Joins.{cross_join_rows, inner_join_rows, combined_schema}
use seeddb.Executor.Joins.Pairs.{filter, joins_on, inner_join_rows-filter}
use seeddb.Executor.Joins.Columns.{same_name_condition-holds}
use seeddb.Executor.Select.{SelectStmt, select_rows, project_row}
use seeddb.Executor.Select.Results.{Selects, select_rows-Selects, select_rows-Permᴰ}
use seeddb.Executor.Aggregates.Extremes.{ExtremesOutcome, extremes-IsExtreme}

-- Numbers that stand for themselves.
abbrev pub num : Numerics
num = record {
  tests = record { eq32 = ◌==◌; lt32 = ltb; eq64 = ◌==◌; lt64 = ltb };
  le64 = leb;
  of_int32 = λ n. n;
  of_int64 = λ n. n;
  of_float = λ n. n;
  to_int32 = λ n. n % 2 ^ 32;
  to_int64 = λ n. n;
  to_float = λ n. n % 2 ^ 32;
  add64 = ◌+◌;
  sub64 = ◌-◌;
  mul64 = ◌*◌;
  div64 = ◌/◌;
  neg32 = λ n. (2 ^ 32 - n) % 2 ^ 32;
  neg64 = λ n. (2 ^ 64 - n) % 2 ^ 64;
  fmod = ◌%◌;
  pow10 = λ n. 10 ^ n;
  round = λ n. n;
  ceil = λ n. n;
  floor = λ n. n;
  to_string = λ v. v.str;
}

abbrev columns : List ColumnSchema
columns = record { name = codes "id"; type = integer; nullable = true } ∷ []

abbrev rows : List Row
rows =
    (integer_value 2 ∷ [])
    ∷ (integer_value 1 ∷ [])
    ∷ (null_value ∷ [])
    ∷ (integer_value 2 ∷ [])
    ∷ []

abbrev id_column : Expr
id_column = column_ref [] (codes "id")

abbrev one_literal : Expr
one_literal = literal (TokenValue.int_value 1)

abbrev above_one : Expr
above_one = binary gt_op id_column one_literal

abbrev is_present : Expr
is_present = is_null_expr id_column true

match_like_pattern-Matches_example :
    (match_like_pattern (codes "cart") (codes "c%t") ≡ true) ↔ Matches (codes "cart") (codes "c%t")
match_like_pattern-Matches_example = match_like_pattern-Matches (codes "cart") (codes "c%t")

apply_distinct_lem_example : DistinctOutcome num.tests rows
apply_distinct_lem_example = apply_distinct_lem num.tests rows

distinct_rows : length (apply_distinct num.tests true rows) ≡ 3
unfolding apply_distinct seeddb.Common.Value.equals
distinct_rows = refl

apply_limit_offset-take_example :
    (apply_limit_offset (some 2) (some 1) rows ≡ take 2 (drop 1 rows))
    × (apply_limit_offset none (some 1) rows ≡ drop 1 rows)
    × (apply_limit_offset (some 2) none rows ≡ take 2 rows)
apply_limit_offset-take_example = apply_limit_offset-take 2 1 rows (omega arith) (omega arith)

nexts-rows_example :
    nexts (length rows + 2) (record { result_rows = rows; current_row_index = 0 })
    ≡ map some rows ++ replicate 2 none
nexts-rows_example = nexts-rows 2 rows

where_holds-connectives_example :
    ConnectivesOutcome num (make_schema columns) (null_value ∷ []) above_one is_present
where_holds-connectives_example =
    where_holds-connectives num (make_schema columns) (null_value ∷ []) above_one is_present tt tt

int_literals-never_in_example :
    IntLiteralsOutcome num
      (make_schema columns)
      (integer_value 2 ∷ [])
      id_column
      (1 ∷ 2 ∷ [])
      1
      3
      false
int_literals-never_in_example =
    int_literals-never_in num (make_schema columns) (integer_value 2 ∷ []) id_column (1 ∷ 2 ∷ []) 1
      3 false read
  where
    read : (evaluate num (make_schema columns) (integer_value 2 ∷ []) id_column).type ≡ integer
    read = unfold evaluate make_schema column_index seeddb.Common.Value.str_equal in refl

inner_join_rows-filter_example :
    (inner_join_rows num rows rows (an_expr above_one) (make_schema columns) (make_schema columns)
      ≡ filter
          (joins_on num
            (an_expr above_one)
            (combined_schema (make_schema columns) (make_schema columns)))
          (cross_join_rows rows rows))
    × (length (cross_join_rows rows rows) ≡ length rows * length rows)
inner_join_rows-filter_example =
    inner_join_rows-filter num rows rows (an_expr above_one) (make_schema columns)
      (make_schema columns)

same_name_condition-holds_example :
    where_holds num
      (combined_schema (make_schema columns) (make_schema columns))
      ((integer_value 1 ∷ []) ++ integer_value 2 ∷ [])
      (an_expr
        (binary eq_op (column_ref (codes "a") (codes "id")) (column_ref (codes "b") (codes "id"))))
    ≡ true
same_name_condition-holds_example =
    same_name_condition-holds num columns columns (integer_value 1 ∷ []) (integer_value 2 ∷ [])
      (codes "a") (codes "b") (codes "id") (λ n. ground arith) refl present typed
  where
    present : has_column (make_schema columns) (codes "id") ≡ true
    present = unfold has_column make_schema seeddb.Common.Value.str_equal in refl

    typed : (column_value (make_schema columns) (integer_value 2 ∷ []) (codes "id")).type ≡ integer
    typed = unfold column_value column_index make_schema seeddb.Common.Value.str_equal in refl

-- A sort that leaves the rows as they are permutes them.
abbrev keep_order : (Row → Row → Bool) → List Row → List Row
keep_order before xs = xs

abbrev stmt : SelectStmt
stmt = record {
  select_all = true;
  distinct = false;
  select_items = [];
  where_clause = an_expr above_one;
  order_by = [];
  limit = none;
  offset = none;
}

select_rows-Selects_example :
    All
      (λ out. Any (Selects num stmt (make_schema columns) out) rows)
      (select_rows num keep_order stmt (make_schema columns) rows)
select_rows-Selects_example =
    select_rows-Selects num keep_order (λ before xs. Permᴰ.refl xs) stmt (make_schema columns) rows

select_rows-Permᴰ_example :
    Permᴰ
      (map
        (project_row num stmt (make_schema columns))
        (filter (λ row. where_holds num (make_schema columns) row stmt.where_clause) rows))
      (select_rows num keep_order stmt (make_schema columns) rows)
select_rows-Permᴰ_example =
    select_rows-Permᴰ num keep_order (λ before xs. Permᴰ.refl xs) stmt (make_schema columns) rows
      refl refl refl

extremes-IsExtreme_example :
    ExtremesOutcome num integer (integer_value 2 ∷ null_value ∷ integer_value 1 ∷ [])
extremes-IsExtreme_example =
    extremes-IsExtreme num integer (integer_value 2 ∷ null_value ∷ integer_value 1 ∷ []) tt
      (unfold is_null in (inr refl, (inl refl, (inr refl, tt))))
