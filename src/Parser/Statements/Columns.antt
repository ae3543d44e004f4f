-- ===== src/Parser/Statements/Columns.antt =====
-- src/parser/parser.cpp: parseDataType, parseColumnDef and parseColumnDefList.
pub mod Progress
use seeddb.Base.{
  ℕ, zero, suc, ◌^◌, Bool, true, false, List, [], ◌∷◌, ◌++◌, Option, none, some, Bytes, length, leb,
  if◌then◌else◌, ◌||◌,
}
use seeddb.Parser.Token.{
  TokenType, TokenValue, Token, int_value, create_kw, drop_kw, table_kw, select_kw, from_kw,
  where_kw, insert_kw, into_kw, update_kw, delete_kw, values_kw, set_kw, join_kw, inner_kw, left_kw,
  right_kw, cross_kw, on_kw, group_kw, by_kw, order_kw, asc_kw, desc_kw, having_kw, limit_kw,
  offset_kw, distinct_kw, exists_kw, as_kw, if_kw, integer_kw, bigint_kw, float_kw, double_kw,
  varchar_kw, text_kw, boolean_kw, not_kw, null_lit, integer_lit, identifier, star, eq, lparen,
  rparen, comma, semicolon,
}
use seeddb.Parser.Ast.{Expr, OptExpr, no_expr, an_expr, Exprs}
use seeddb.Parser.Stream.{
  Tokens, Parsed, ok, syntax_error, no_fuel, P, and_then, ◌>>=◌, ◌>>◌, pure, fail, check, accept,
  require, require_name, take_op, comma_list, same_type,
}
use seeddb.Parser.Expressions.Primary.{optional_clause, to_exprs}
use seeddb.Parser.Expressions.{parse_expression}
use seeddb.Executor.Joins.{JoinType, cross, inner, left_outer, right_outer}
use seeddb.Executor.Select.{SelectItem, OrderByItem, SelectStmt}
use seeddb.Executor.Statements.{
  DataType, int_type, bigint_type, float_type, double_type, varchar_type, text_type, boolean_type,
  ColumnDef, CreateTableStmt, DropTableStmt, InsertStmt, UpdateStmt, DeleteStmt,
}

-- `parseDataType` by the type's first token. The length of a VARCHAR is left out.
unfoldable pub data_type_of : TokenType → P DataType
unfolding accept require
data_type_of integer_kw = pure int_type
data_type_of bigint_kw = pure bigint_type
data_type_of float_kw = pure float_type
data_type_of double_kw = pure double_type
data_type_of varchar_kw = do
  has_length ← accept lparen
  elim has_length [
    | true ↦ do require integer_lit; require rparen; pure varchar_type
    | false ↦ pure varchar_type
  ]
data_type_of text_kw = pure text_type
data_type_of boolean_kw = pure boolean_type
data_type_of _ = fail

unfoldable pub parse_data_type : P DataType
unfolding data_type_of
parse_data_type [] = syntax_error
parse_data_type (t ∷ ts) = data_type_of t.type ts

unfoldable pub parse_column_def : P ColumnDef
unfolding require_name parse_data_type accept require
parse_column_def = do
  name ← require_name
  type ← parse_data_type
  is_not_null ← accept not_kw
  elim is_not_null [
    | true ↦ do require null_lit; pure (record { name = name; data_type = type; nullable = false })
    | false ↦ pure (record { name = name; data_type = type; nullable = true })
  ]

abbrev pub is_done : Tokens → Bool
is_done [] = true
is_done (t ∷ ts) = same_type t.type rparen

-- `parseColumnDefList`, with fuel; each turn takes a token.
unfoldable pub column_loop : ℕ → P (List ColumnDef)
unfolding parse_column_def accept
column_loop zero ts = no_fuel
column_loop (suc n) ts = elim (is_done ts) [
  | true ↦ ok [] ts
  | false ↦
      (do
        col ← parse_column_def
        more ← accept comma
        elim more [ true ↦ do cols ← column_loop n; pure (col ∷ cols) | false ↦ pure (col ∷ []) ])
        ts
]

unfoldable pub parse_column_def_list : P (List ColumnDef)
unfolding column_loop
parse_column_def_list ts = column_loop (suc (length ts)) ts
