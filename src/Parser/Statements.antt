-- ===== src/Parser/Statements.antt =====
-- src/parser/parser.cpp: the statements. `expr` is the parser of expressions.
pub mod Columns
pub mod Sources
pub mod Clauses
pub mod Progress
pub mod Trailing
use seeddb.Base.{
  ℕ, zero, suc, ◌^◌, Bool, true, false, List, [], ◌∷◌, ◌++◌, Option, none, some, Bytes, length, leb,
  if◌then◌else◌, ◌||◌,
}
use seeddb.Parser.Token.{
  TokenType, TokenValue, Token, int_value, create_kw, drop_kw, table_kw, select_kw, from_kw,
  where_kw, insert_kw, into_kw, update_kw, delete_kw, values_kw, set_kw, join_kw, inner_kw, left_kw,
  right_kw, cross_kw, on_kw, group_kw, by_kw, order_kw, asc_kw, desc_kw, having_kw, limit_kw,
  offset_kw, distinct_kw, exists_kw, as_kw, if_kw, integer_kw, bigint_kw, float_kw, double_kw,
  varchar_kw, text_kw, boolean_kw, not_kw, null_lit, integer_lit, identifier, star, eq, lparen,
  rparen, comma, semicolon,
}
use seeddb.Parser.Ast.{Expr, OptExpr, no_expr, an_expr, Exprs}
use seeddb.Parser.Stream.{
  Tokens, Parsed, ok, syntax_error, no_fuel, P, and_then, ◌>>=◌, ◌>>◌, pure, fail, check, accept,
  require, require_name, take_op, comma_list, same_type,
}
use seeddb.Parser.Expressions.Primary.{optional_clause, to_exprs}
use seeddb.Parser.Expressions.{parse_expression}
use seeddb.Executor.Joins.{JoinType, cross, inner, left_outer, right_outer}
use seeddb.Executor.Select.{SelectItem, OrderByItem, SelectStmt}
use seeddb.Executor.Statements.{
  DataType, int_type, bigint_type, float_type, double_type, varchar_type, text_type, boolean_type,
  ColumnDef, CreateTableStmt, DropTableStmt, InsertStmt, UpdateStmt, DeleteStmt,
}
use seeddb.Parser.Statements.Columns.{parse_column_def_list}
use seeddb.Parser.Statements.Sources.{TableRef, JoinClause, parse_table_ref, parse_joins}
use seeddb.Parser.Statements.Clauses.{parse_columns, by_clause, parse_order_by_item, limit_clause}

-- `SelectStmt`, with the parts that the executor's `SelectStmt` leaves out.
pub record SelectQuery : Type 0 where
  pub body : SelectStmt
  pub from_table : TableRef
  pub joins : List JoinClause
  pub group_by : Exprs
  pub having : OptExpr

-- `Stmt` with its subclasses.
pub data Stmt : Type 0 where
  create_stmt : CreateTableStmt → Stmt
  drop_stmt : DropTableStmt → Stmt
  select_stmt : SelectQuery → Stmt
  insert_stmt : InsertStmt → Stmt
  update_stmt : UpdateStmt → Stmt
  delete_stmt : DeleteStmt → Stmt

unfoldable pub parse_create_table : P Stmt
unfolding require require_name parse_column_def_list
parse_create_table = do
  require create_kw
  require table_kw
  name ← require_name
  require lparen
  columns ← parse_column_def_list
  require rparen
  pure (create_stmt (record { table_name = name; columns = columns }))

-- The optional IF EXISTS.
unfoldable pub if_exists_clause : P Bool
unfolding accept require
if_exists_clause = do
  present ← accept if_kw
  elim present [ true ↦ do require exists_kw; pure true | false ↦ pure false ]

unfoldable pub parse_drop_table : P Stmt
unfolding require require_name if_exists_clause
parse_drop_table = do
  require drop_kw
  require table_kw
  if_exists ← if_exists_clause
  name ← require_name
  pure (drop_stmt (record { table_name = name; if_exists = if_exists }))

unfoldable pub parse_select : P Expr → P Stmt
unfolding require accept parse_columns parse_table_ref parse_joins optional_clause by_clause
    parse_order_by_item limit_clause to_exprs
parse_select expr = do
  require select_kw
  distinct ← accept distinct_kw
  columns ← parse_columns expr
  require from_kw
  table ← parse_table_ref
  joins ← parse_joins expr
  where_clause ← optional_clause where_kw expr
  group_by ← by_clause group_kw expr
  having ← optional_clause having_kw expr
  order_by ← by_clause order_kw (parse_order_by_item expr)
  limit ← limit_clause
  pure (
      select_stmt (record {
        body = record {
          select_all = columns.0;
          distinct = distinct;
          select_items = columns.1;
          where_clause = where_clause;
          order_by = order_by;
          limit = limit.0;
          offset = limit.1;
        };
        from_table = table;
        joins = joins;
        group_by = to_exprs group_by;
        having = having;
      }))

-- The optional column list of INSERT.
unfoldable pub insert_columns : P (List Bytes)
unfolding accept require require_name comma_list
insert_columns = do
  present ← accept lparen
  elim present [
    | true ↦ do columns ← comma_list require_name; require rparen; pure columns
    | false ↦ pure []
  ]

unfoldable pub parse_insert : P Expr → P Stmt
unfolding require require_name insert_columns comma_list
parse_insert expr = do
  require insert_kw
  require into_kw
  name ← require_name
  columns ← insert_columns
  require values_kw
  require lparen
  values ← comma_list expr
  require rparen
  pure (insert_stmt (record { table_name = name; columns = columns; values = values }))

unfoldable pub parse_assignment : P Expr → P (Bytes × Expr)
unfolding require require_name
parse_assignment expr = do col ← require_name; require eq; value ← expr; pure (col, value)

unfoldable pub parse_update : P Expr → P Stmt
unfolding require require_name comma_list parse_assignment optional_clause
parse_update expr = do
  require update_kw
  name ← require_name
  require set_kw
  assignments ← comma_list (parse_assignment expr)
  where_clause ← optional_clause where_kw expr
  pure (
      update_stmt
        (record { table_name = name; assignments = assignments; where_clause = where_clause }))

unfoldable pub parse_delete : P Expr → P Stmt
unfolding require require_name optional_clause
parse_delete expr = do
  require delete_kw
  require from_kw
  name ← require_name
  where_clause ← optional_clause where_kw expr
  pure (delete_stmt (record { table_name = name; where_clause = where_clause }))

-- `parseStatement` by the first token.
unfoldable pub statement_of : P Expr → TokenType → P Stmt
unfolding parse_create_table parse_drop_table parse_select parse_insert parse_update parse_delete
statement_of expr create_kw = parse_create_table
statement_of expr drop_kw = parse_drop_table
statement_of expr select_kw = parse_select expr
statement_of expr insert_kw = parse_insert expr
statement_of expr update_kw = parse_update expr
statement_of expr delete_kw = parse_delete expr
statement_of expr _ = fail

unfoldable pub parse_statement : P Expr → P Stmt
unfolding statement_of
parse_statement expr [] = syntax_error
parse_statement expr (t ∷ ts) = statement_of expr t.type (t ∷ ts)

-- `parse`, with fuel for the nesting of expressions, one for each token.
unfoldable pub parse : P Stmt
unfolding parse_statement parse_expression
parse ts = parse_statement (parse_expression (suc (length ts))) ts

-- `parseAll`, with fuel; each turn takes a token.
unfoldable pub parse_all_loop : ℕ → P (List Stmt)
unfolding parse accept
parse_all_loop zero ts = no_fuel
parse_all_loop (suc n) [] = ok [] []
parse_all_loop (suc n) (t ∷ ts) =
    (do
      stmt ← parse
      has_semicolon ← accept semicolon
      stmts ← parse_all_loop n
      pure (stmt ∷ stmts))
      (t ∷ ts)

unfoldable pub parse_all : P (List Stmt)
unfolding parse_all_loop
parse_all ts = parse_all_loop (suc (length ts)) ts
