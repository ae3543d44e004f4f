-- ===== src/Executor/Statements.antt =====
-- The statements that change tables: src/executor/executor.cpp on what src/parser/ast.h gives it.
-- What is used of the storage manager is the interface `TableStore`.
pub mod Assignments
pub mod Changes
mod Tests
use seeddb.Base.{
  ℕ, zero, ◌+◌, ◌%◌, ◌^◌, Bool, true, false, not, List, [], ◌∷◌, Option, none, some, Bytes, length,
  if◌then◌else◌, ◌==◌,
}
use seeddb.Common.LogicalType.{LogicalTypeId, integer, bigint, float, double, varchar, boolean}
use seeddb.Common.Value.{
  Value, null_value, integer_value, bigint_value, float_value, double_value, varchar_value,
  boolean_value,
}
use seeddb.Common.Numerics.{Numerics}
use seeddb.Parser.Token.{TokenValue}
use seeddb.Parser.Ast.{Expr, literal, OptExpr}
use seeddb.Storage.PageId.{Tid}
use seeddb.Storage.Schema.{
  Row, ColumnSchema, Schema, make_schema, column_index, validate_row, set_value,
}
use seeddb.Storage.Catalog.{Catalog, Table, get_table, has_table, create_table, drop_table}
use seeddb.Executor.Eval.{evaluate, where_holds}

-- `enum class DataType`
pub data DataType : Type 0 where
  int_type bigint_type float_type double_type varchar_type text_type boolean_type : DataType

pub record ColumnDef : Type 0 where
  pub name : Bytes
  pub data_type : DataType
  pub nullable : Bool

pub record CreateTableStmt : Type 0 where
  pub table_name : Bytes
  pub columns : List ColumnDef

pub record DropTableStmt : Type 0 where
  pub table_name : Bytes
  pub if_exists : Bool

pub record InsertStmt : Type 0 where
  pub table_name : Bytes
  pub columns : List Bytes
  pub values : List Expr

pub record UpdateStmt : Type 0 where
  pub table_name : Bytes
  pub assignments : List (Bytes × Expr)
  pub where_clause : OptExpr

pub record DeleteStmt : Type 0 where
  pub table_name : Bytes
  pub where_clause : OptExpr

-- The codes of `ErrorCode` that these statements report.
pub data ErrorCode : Type 0 where
  internal_error not_implemented table_not_found column_not_found : ErrorCode
  duplicate_table constraint_violation io_error : ErrorCode

-- `ExecutionResult`: `empty` with the rows affected, or an error. The message is left out.
pub data ExecutionResult : Type 0 where
  empty : ℕ → ExecutionResult
  error : ErrorCode → ExecutionResult

-- `rows` is what `createIterator` and its loop give, `none` for a null iterator.
pub record TableStore : Type 1 where
  pub Store : Type 0
  pub rows : Bytes → Store → Option (List (Tid × Row))
  pub on_create_table : Bytes → Schema → Store → Bool × Store
  pub on_drop_table : Bytes → Store → Bool × Store
  pub insert_row : Bytes → Row → Schema → Store → Bool × Store
  pub update_row : Tid → Row → Schema → Store → Bool × Store
  pub delete_row : Tid → Store → Bool × Store

-- `toLogicalType`
unfoldable pub to_logical_type : DataType → LogicalTypeId
to_logical_type int_type = integer
to_logical_type bigint_type = bigint
to_logical_type float_type = float
to_logical_type double_type = double
to_logical_type varchar_type = varchar
to_logical_type text_type = varchar
to_logical_type boolean_type = boolean

unfoldable pub to_columns : List ColumnDef → List ColumnSchema
unfolding to_logical_type
to_columns [] = []
to_columns (c ∷ cs) =
    record { name = c.name; type = to_logical_type c.data_type; nullable = c.nullable }
    ∷ to_columns cs

-- The switch on an integer literal, a two's complement pattern of 64 bits.
unfoldable pub insert_int : LogicalTypeId → ℕ → Value
insert_int bigint v = bigint_value v
insert_int _ v = integer_value (v % 2 ^ 32)

module _ (num : Numerics) where
  unfoldable pub insert_float : LogicalTypeId → ℕ → Value
  insert_float float v = float_value (num.to_float v)
  insert_float _ v = double_value v

  -- A literal as a value of a column of the type.
  unfoldable pub insert_literal : LogicalTypeId → TokenValue → Value
  unfolding insert_int insert_float
  insert_literal type TokenValue.no_value = null_value
  insert_literal type (TokenValue.int_value v) = insert_int type v
  insert_literal type (TokenValue.float_value v) = insert_float type v
  insert_literal type (TokenValue.string_value s) = varchar_value s
  insert_literal type (TokenValue.bool_value b) = boolean_value b

  abbrev pub literal_for : LogicalTypeId → Expr → Option Value
  unfolding insert_literal
  literal_for type (literal v) = some (insert_literal type v)
  literal_for type _ = none

  -- The loop of INSERT over the values; `none` where one is not a literal.
  unfoldable pub insert_values : List ColumnSchema → List Expr → Option Row
  unfolding insert_literal
  insert_values [] es = some []
  insert_values (c ∷ cs) [] = some []
  insert_values (c ∷ cs) (e ∷ es) = elim (literal_for c.type e) [
    | none ↦ none
    | some v ↦ elim (insert_values cs es) [ none ↦ none | some vs ↦ some (v ∷ vs) ]
  ]

  -- The loop of UPDATE over the assignments: the old row, and the values so far. `none` where there
  -- is no such column; a schema's index is never past its columns.
  unfoldable pub assign : Schema → Row → List (Bytes × Expr) → Row → Option Row
  assign schema old [] new = some new
  assign schema old ((name, e) ∷ rest) new = elim (column_index schema name) [
    | none ↦ none
    | some i ↦ elim (set_value new i (evaluate num schema old e)) [
      | none ↦ none
      | some new' ↦ assign schema old rest new'
    ]
  ]

  -- `old_row.get(i)` for each column.
  abbrev pub copy_row : List ColumnSchema → Row → Row
  copy_row [] row = []
  copy_row (c ∷ cs) [] = null_value ∷ copy_row cs []
  copy_row (c ∷ cs) (v ∷ vs) = v ∷ copy_row cs vs

  pub data Collected : Type 0 where
    failed : ErrorCode → Collected
    collected : List (Tid × Row) → Collected

  abbrev pub and_update : Tid → Row → Collected → Collected
  and_update tid row (failed e) = failed e
  and_update tid row (collected us) = collected ((tid, row) ∷ us)

  -- The first pass of UPDATE.
  unfoldable pub collect_updates : Schema → UpdateStmt → List (Tid × Row) → Collected
  unfolding assign
  collect_updates schema stmt [] = collected []
  collect_updates schema stmt ((tid, old) ∷ rows) =
      let rest = collect_updates schema stmt rows in
      if where_holds num schema old stmt.where_clause
      then elim (assign schema old stmt.assignments (copy_row schema.columns old)) [
        | none ↦ failed column_not_found
        | some new ↦
            if not (validate_row schema new)
            then failed constraint_violation
            else and_update tid new rest
      ]
      else rest

  -- The first pass of DELETE.
  unfoldable pub tids_to_delete : Schema → OptExpr → List (Tid × Row) → List Tid
  tids_to_delete schema clause [] = []
  tids_to_delete schema clause ((tid, row) ∷ rows) =
      let rest = tids_to_delete schema clause rows in
      if where_holds num schema row clause then tid ∷ rest else rest

  module _ (ts : TableStore) where
    -- The catalog, and the storage manager's state if there is a storage manager.
    abbrev pub State : Type 0
    State = Catalog × Option ts.Store

    -- The second passes, to the first failure.
    unfoldable pub apply_updates : Schema → List (Tid × Row) → ts.Store → Bool × ts.Store
    apply_updates schema [] s = (true, s)
    apply_updates schema ((tid, row) ∷ us) s =
        let (ok, s') = ts.update_row tid row schema s in
        let rest = apply_updates schema us s' in if ok then rest else (false, s')

    unfoldable pub apply_deletes : List Tid → ts.Store → Bool × ts.Store
    apply_deletes [] s = (true, s)
    apply_deletes (tid ∷ tids) s =
        let (ok, s') = ts.delete_row tid s in
        let rest = apply_deletes tids s' in if ok then rest else (false, s')

    abbrev pub report : Catalog → Bool × ts.Store → ExecutionResult × State
    report c (ok, s) = (if ok then empty 0 else error internal_error, (c, some s))

    unfoldable pub execute_create : CreateTableStmt → State → ExecutionResult × State
    unfolding to_columns create_table drop_table
    execute_create stmt (c, store) =
        if has_table c stmt.table_name
        then (error duplicate_table, (c, store))
        else let schema = make_schema (to_columns stmt.columns) in
          let (created, c') = create_table stmt.table_name schema c in
          if not created then (error duplicate_table, (c', store)) else elim store [
            | none ↦ (empty 0, (c', none))
            | some s ↦ elim (get_table c' stmt.table_name) [
              | none ↦ (error internal_error, (c', some s))
              | some t ↦
                  let (ok, s') = ts.on_create_table stmt.table_name t.schema s in
                  if not ok
                  then (error io_error, ((drop_table stmt.table_name c').1, some s'))
                  else (empty 0, (c', some s'))
            ]
          ]

    unfoldable pub execute_drop : DropTableStmt → State → ExecutionResult × State
    unfolding drop_table
    execute_drop stmt (c, store) =
        if not (has_table c stmt.table_name)
        then (if stmt.if_exists then empty 0 else error table_not_found, (c, store))
        else elim store [
          | none ↦ (empty 0, ((drop_table stmt.table_name c).1, none))
          | some s ↦
              let (ok, s') = ts.on_drop_table stmt.table_name s in
              if not ok
              then (error io_error, (c, some s'))
              else (empty 0, ((drop_table stmt.table_name c).1, some s'))
        ]

    -- INSERT of a row that has been built.
    unfoldable pub insert_built : Bytes → Schema → Row → State → ExecutionResult × State
    insert_built name schema row (c, store) =
        if not (validate_row schema row)
        then (error constraint_violation, (c, store))
        else elim store [
          | none ↦ (error internal_error, (c, none))
          | some s ↦
              let (ok, s') = ts.insert_row name row schema s in
              (if not ok then error internal_error else empty 1, (c, some s'))
        ]

    unfoldable pub execute_insert : InsertStmt → State → ExecutionResult × State
    unfolding insert_values insert_built
    execute_insert stmt (c, store) = elim (get_table c stmt.table_name) [
      | none ↦ (error table_not_found, (c, store))
      | some t ↦
          if not (length stmt.values == length t.schema.columns)
          then (error constraint_violation, (c, store))
          else elim (insert_values t.schema.columns stmt.values) [
            | none ↦ (error not_implemented, (c, store))
            | some row ↦ insert_built stmt.table_name t.schema row (c, store)
          ]
    ]

    unfoldable pub execute_update : UpdateStmt → State → ExecutionResult × State
    unfolding collect_updates apply_updates
    execute_update stmt (c, store) = elim (get_table c stmt.table_name) [
      | none ↦ (error table_not_found, (c, store))
      | some t ↦ elim store [
        | none ↦ (error internal_error, (c, none))
        | some s ↦ elim (ts.rows stmt.table_name s) [
          | none ↦ (error internal_error, (c, some s))
          | some rows ↦ elim (collect_updates t.schema stmt rows) [
            | failed e ↦ (error e, (c, some s))
            | collected us ↦ report c (apply_updates t.schema us s)
          ]
        ]
      ]
    ]

    unfoldable pub execute_delete : DeleteStmt → State → ExecutionResult × State
    unfolding tids_to_delete apply_deletes
    execute_delete stmt (c, store) = elim (get_table c stmt.table_name) [
      | none ↦ (error table_not_found, (c, store))
      | some t ↦ elim store [
        | none ↦ (error internal_error, (c, none))
        | some s ↦ elim (ts.rows stmt.table_name s) [
          | none ↦ (error internal_error, (c, some s))
          | some rows ↦ report c (apply_deletes (tids_to_delete t.schema stmt.where_clause rows) s)
        ]
      ]
    ]
