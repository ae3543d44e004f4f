-- ===== src/Parser/Statements/Clauses.antt =====
-- src/parser/parser.cpp: the select list, GROUP BY, ORDER BY, LIMIT and OFFSET.
pub mod Progress
use seeddb.Base.{
  ℕ, zero, suc, ◌^◌, Bool, true, false, List, [], ◌∷◌, ◌++◌, Option, none, some, Bytes, length, leb,
  if◌then◌else◌, ◌||◌,
}
use seeddb.Parser.Token.{
  TokenType, TokenValue, Token, int_value, create_kw, drop_kw, table_kw, select_kw, from_kw,
  where_kw, insert_kw, into_kw, update_kw, delete_kw, values_kw, set_kw, join_kw, inner_kw, left_kw,
  right_kw, cross_kw, on_kw, group_kw, by_kw, order_kw, asc_kw, desc_kw, having_kw, limit_kw,
  offset_kw, distinct_kw, exists_kw, as_kw, if_kw, integer_kw, bigint_kw, float_kw, double_kw,
  varchar_kw, text_kw, boolean_kw, not_kw, null_lit, integer_lit, identifier, star, eq, lparen,
  rparen, comma, semicolon,
}
use seeddb.Parser.Ast.{Expr, OptExpr, no_expr, an_expr, Exprs}
use seeddb.Parser.Stream.{
  Tokens, Parsed, ok, syntax_error, no_fuel, P, and_then, ◌>>=◌, ◌>>◌, pure, fail, check, accept,
  require, require_name, take_op, comma_list, same_type,
}
use seeddb.Parser.Expressions.Primary.{optional_clause, to_exprs}
use seeddb.Parser.Expressions.{parse_expression}
use seeddb.Executor.Joins.{JoinType, cross, inner, left_outer, right_outer}
use seeddb.Executor.Select.{SelectItem, OrderByItem, SelectStmt}
use seeddb.Executor.Statements.{
  DataType, int_type, bigint_type, float_type, double_type, varchar_type, text_type, boolean_type,
  ColumnDef, CreateTableStmt, DropTableStmt, InsertStmt, UpdateStmt, DeleteStmt,
}
use seeddb.Parser.Statements.Sources.{optional_alias}

unfoldable pub parse_select_item : P Expr → P SelectItem
unfolding optional_alias
parse_select_item expr = do
  e ← expr
  alias ← optional_alias
  pure (record { expr = e; alias = alias })

-- The star or the items.
unfoldable pub parse_columns : P Expr → P (Bool × List SelectItem)
unfolding accept comma_list parse_select_item
parse_columns expr = do
  select_all ← accept star
  elim select_all [
    | true ↦ pure (true, [])
    | false ↦ do items ← comma_list (parse_select_item expr); pure (false, items)
  ]

-- GROUP BY or ORDER BY with its list.
unfoldable pub by_clause : {A : Type 0} → TokenType → P A → P (List A)
unfolding accept require comma_list
by_clause keyword p = do
  present ← accept keyword
  elim present [ true ↦ do require by_kw; comma_list p | false ↦ pure [] ]

unfoldable pub parse_order_by_item : P Expr → P OrderByItem
unfolding accept
parse_order_by_item expr = do
  e ← expr
  descending ← accept desc_kw
  elim descending [
    | true ↦ pure (record { expr = e; descending = true })
    | false ↦ do ascending ← accept asc_kw; pure (record { expr = e; descending = false })
  ]

abbrev pub get_int : TokenValue → ℕ
get_int (int_value v) = v
get_int _ = 0

-- The number of LIMIT or OFFSET, an `int64_t`, which must not be negative.
unfoldable pub require_count : P ℕ
require_count [] = syntax_error
require_count (t ∷ ts) =
    if same_type t.type integer_lit
    then if leb (2 ^ 63) (get_int t.value) then syntax_error else ok (get_int t.value) ts
    else syntax_error

unfoldable pub offset_clause : P (Option ℕ)
unfolding accept require_count
offset_clause = do
  present ← accept offset_kw
  elim present [ true ↦ do n ← require_count; pure (some n) | false ↦ pure none ]

unfoldable pub limit_clause : P (Option ℕ × Option ℕ)
unfolding accept require_count offset_clause
limit_clause = do
  present ← accept limit_kw
  elim present [
    | true ↦ do n ← require_count; offset ← offset_clause; pure (some n, offset)
    | false ↦ pure (none, none)
  ]
