-- ===== src/Executor/Statements/Tests.antt =====
-- Runs of the statements of src/executor/executor.cpp on a storage manager with one table.
use seeddb.Executor.Statements.{
  CreateTableStmt, TableStore, UpdateStmt, collect_updates, execute_create, insert_values,
  double_type, to_columns, to_logical_type, insert_literal, insert_int,
}
use seeddb.Base.{true, false, List, [], ◌∷◌, none, some, ◌≡◌, refl, codes}
use seeddb.Common.LogicalType.{integer}
use seeddb.Common.Value.{integer_value, is_null, double_value}
use seeddb.Parser.Token.{TokenValue}
use seeddb.Parser.Ast.{literal, column_ref, binary, gt_op, an_expr}
use seeddb.Storage.PageId.{Tid}
use seeddb.Executor.Statements.Assignments.{make_schema-IsIndexed}
use seeddb.Storage.Schema.{ColumnSchema, Row, Schema, make_schema}
use seeddb.Storage.RowSerializer.{serialize, write_columns, total_size, payload, payload_size}
use seeddb.Executor.Tests.{num}
use seeddb.Executor.Statements.{
  TableStore, CreateTableStmt, UpdateStmt, double_type, collect_updates, execute_create,
  insert_values, to_columns, to_logical_type, insert_literal, insert_int,
}
use seeddb.Executor.Statements.Changes.{CollectOutcome, collect_updates-outcome}

-- A storage manager that keeps the rows of one table and refuses every new table.
abbrev full_disk : TableStore
full_disk = record {
  Store = List (Tid × Row);
  rows = λ name s. some s;
  on_create_table = λ name schema s. (false, s);
  on_drop_table = λ name s. (true, []);
  insert_row =
      λ name row schema s. (true, (record { file_id = 0; page_num = 0; slot_id = 0 }, row) ∷ s);
  update_row = λ tid row schema s. (true, s);
  delete_row = λ tid s. (true, s);
}

abbrev create : CreateTableStmt
create = record {
  table_name = codes "t";
  columns = record { name = codes "x"; data_type = double_type; nullable = true } ∷ [];
}

abbrev columns : List ColumnSchema
columns = record { name = codes "x"; type = integer; nullable = true } ∷ []

abbrev schema : Schema
schema = make_schema columns

abbrev update : UpdateStmt
update = record {
  table_name = codes "t";
  assignments = (codes "x", literal (TokenValue.int_value 7)) ∷ [];
  where_clause =
      an_expr (binary gt_op (column_ref [] (codes "x")) (literal (TokenValue.int_value 1)));
}

abbrev rows : List (Tid × Row)
rows =
    (record { file_id = 1; page_num = 0; slot_id = 0 }, integer_value 1 ∷ [])
    ∷ (record { file_id = 1; page_num = 0; slot_id = 1 }, integer_value 2 ∷ [])
    ∷ []

collect_updates-outcome_example :
    CollectOutcome num schema update rows (collect_updates num schema update rows)
collect_updates-outcome_example =
    collect_updates-outcome num schema update rows (make_schema-IsIndexed columns)

-- An integer literal in a DOUBLE column comes back as the double with the literal's bits.
double_from_int :
    elim (insert_values num (to_columns create.columns) (literal (TokenValue.int_value 5) ∷ [])) [
      | none ↦ none
      | some row ↦ serialize (to_columns create.columns) row
    ]
    ≡ serialize (to_columns create.columns) (double_value 5 ∷ [])
unfolding insert_values to_columns to_logical_type insert_literal insert_int serialize write_columns
    total_size is_null payload payload_size
double_from_int = refl
