-- ===== src/Executor/Select.antt =====
-- A SELECT without aggregates, from `prepareSelect`, `processJoins`, `projectRow` and
-- `sortResultRows` of src/executor/executor.cpp, on the rows that the iterators give. `std::sort` is a
-- parameter.
pub mod Results
pub mod Ordering
use seeddb.Base.{
  ℕ, ◌+◌, Bool, List, [], ◌∷◌, Option, none, some, Bytes, if◌then◌else◌, get_elem?, get_or, true,
  false, ◌++◌,
}
use seeddb.Common.Value.{str_equal}
use seeddb.Base.Int.{pos, is_positive, ltb_int, eq_int}
use seeddb.Common.Value.{null_value}
use seeddb.Common.Numerics.{Numerics}
use seeddb.Executor.Eval.{evaluate, where_holds}
use seeddb.Executor.Rows.{compare_values, apply_distinct, apply_limit_offset}
use seeddb.Executor.Joins.{Join, process_joins, build_joined_schema}
use seeddb.Storage.Schema.{ColumnSchema, Schema, column_index, Row, make_schema}
use seeddb.Parser.Ast.{Expr, column_ref, OptExpr}

-- `SelectItem`; an empty alias is none.
pub record SelectItem : Type 0 where
  pub expr : Expr
  pub alias : Bytes

-- `OrderByItem`
pub record OrderByItem : Type 0 where
  pub expr : Expr
  pub descending : Bool

-- `SelectStmt`, without its tables, groups and HAVING clause.
pub record SelectStmt : Type 0 where
  pub select_all : Bool
  pub distinct : Bool
  pub select_items : List SelectItem
  pub where_clause : OptExpr
  pub order_by : List OrderByItem
  pub limit : Option ℕ
  pub offset : Option ℕ

-- `alias_map`, an unordered map from a column to its alias. Where two columns have one alias, the
-- program takes the one that the hashes put first, and the model the one that was entered first.
abbrev pub AliasMap : Type 0
AliasMap = List (Bytes × Bytes)

-- `alias_map[col_name] = alias`
unfoldable pub set_alias : AliasMap → Bytes → Bytes → AliasMap
set_alias [] column alias = (column, alias) ∷ []
set_alias ((c, a) ∷ m) column alias =
    let rest = set_alias m column alias in
    if str_equal c column then (c, alias) ∷ m else (c, a) ∷ rest

-- The column whose alias the name is, or the name.
unfoldable pub resolve_alias : AliasMap → Bytes → Bytes
resolve_alias [] name = name
resolve_alias ((c, a) ∷ m) name =
    let rest = resolve_alias m name in if str_equal a name then c else rest

-- The index of the first column of that name.
unfoldable pub find_column : ℕ → List ColumnSchema → Bytes → Option ℕ
find_column i [] name = none
find_column i (c ∷ cs) name =
    let rest = find_column (i + 1) cs name in if str_equal c.name name then some i else rest

-- The name of a column reference, and the empty text for any other expression.
unfoldable pub column_name : Expr → Bytes
column_name (column_ref table column) = column
column_name _ = []

is_empty : Bytes → Bool
is_empty [] = true
is_empty (c ∷ s) = false

-- The body of the loop over the select list: only a column reference adds a column.
unfoldable pub select_column :
    Schema → Expr → Bytes → List ColumnSchema → AliasMap → List ColumnSchema × AliasMap
unfolding column_index set_alias is_empty
select_column schema (column_ref table column) alias columns aliases =
    elim (column_index schema column) [
      | none ↦ (columns, aliases)
      | some i ↦ elim (get_elem? schema.columns i) [
        | none ↦ (columns, aliases)
        | some c ↦
            (columns ++ c ∷ [], if is_empty alias then aliases else set_alias aliases column alias)
      ]
    ]
select_column schema _ alias columns aliases = (columns, aliases)

-- The loop, which builds the result columns and the aliases.
unfoldable pub select_columns :
    Schema → List SelectItem → List ColumnSchema → AliasMap → List ColumnSchema × AliasMap
unfolding select_column
select_columns schema [] columns aliases = (columns, aliases)
select_columns schema (item ∷ items) columns aliases =
    let (columns', aliases') = select_column schema item.expr item.alias columns aliases in
    select_columns schema items columns' aliases'

module _ (num : Numerics) where
  -- `projectRow`
  unfoldable pub project_items : Schema → Row → List SelectItem → Row
  unfolding evaluate
  project_items schema row [] = []
  project_items schema row (item ∷ items) =
      evaluate num schema row item.expr ∷ project_items schema row items

  unfoldable pub project_row : SelectStmt → Schema → Row → Row
  unfolding project_items
  project_row stmt schema row =
      if stmt.select_all then row else project_items schema row stmt.select_items

  -- The comparison that `sortResultRows` hands to `std::sort`: the columns in turn, those that are not
  -- found skipped.
  unfoldable pub row_before : AliasMap → Schema → List OrderByItem → Row → Row → Bool
  unfolding resolve_alias find_column column_name compare_values
  row_before aliases schema [] a b = false
  row_before aliases schema (item ∷ items) a b =
      let later = row_before aliases schema items a b in
      elim (find_column 0 schema.columns (resolve_alias aliases (column_name item.expr))) [
        | none ↦ later
        | some i ↦
            let cmp = compare_values num.tests (get_or a i null_value) (get_or b i null_value) in
            if eq_int cmp (pos 0)
            then later
            else if item.descending
            then is_positive cmp
            else ltb_int cmp (pos 0)
      ]

  -- The scan: the rows that pass WHERE, projected.
  unfoldable pub scan : SelectStmt → Schema → List Row → List Row
  unfolding where_holds project_row
  scan stmt schema [] = []
  scan stmt schema (row ∷ rows) =
      let rest = scan stmt schema rows in
      if where_holds num schema row stmt.where_clause
      then project_row stmt schema row ∷ rest
      else rest

  module _ (sort : (Row → Row → Bool) → List Row → List Row) where
    unfoldable pub sort_result_rows : SelectStmt → AliasMap → Schema → List Row → List Row
    unfolding row_before
    sort_result_rows stmt aliases schema rows = elim stmt.order_by [
      | [] ↦ rows
      | item ∷ items ↦ sort (row_before aliases schema (item ∷ items)) rows
    ]

    -- What follows the scan, on the result's schema.
    unfoldable pub finish : SelectStmt → AliasMap → Schema → List Row → List Row
    unfolding apply_distinct sort_result_rows apply_limit_offset
    finish stmt aliases schema rows =
        apply_limit_offset stmt.limit stmt.offset
          (sort_result_rows stmt aliases schema (apply_distinct num.tests stmt.distinct rows))

    -- `prepareSelect` without joins.
    unfoldable pub select_rows : SelectStmt → Schema → List Row → List Row
    unfolding scan finish select_columns make_schema
    select_rows stmt schema rows =
        let (columns, aliases) = select_columns schema stmt.select_items [] [] in
        if stmt.select_all
        then finish stmt [] (make_schema schema.columns) (scan stmt schema rows)
        else finish stmt aliases (make_schema columns) (scan stmt schema rows)

    -- `processJoins`; `none` where it fails.
    unfoldable pub select_joined : SelectStmt → Schema → List Row → List Join → Option (List Row)
    unfolding process_joins build_joined_schema scan finish
    select_joined stmt base rows joins = elim (process_joins num base rows joins) [
      | none ↦ none
      | some joined ↦
          let schema = build_joined_schema base joins in
          some (finish stmt [] schema (scan stmt schema joined))
    ]
