-- ===== src/Parser/Statements/Sources.antt =====
-- src/parser/parser.cpp: the tables of a SELECT, with their aliases and joins.
pub mod Progress
use seeddb.Base.{
  ℕ, zero, suc, ◌^◌, Bool, true, false, List, [], ◌∷◌, ◌++◌, Option, none, some, Bytes, length, leb,
  if◌then◌else◌, ◌||◌,
}
use seeddb.Parser.Token.{
  TokenType, TokenValue, Token, int_value, create_kw, drop_kw, table_kw, select_kw, from_kw,
  where_kw, insert_kw, into_kw, update_kw, delete_kw, values_kw, set_kw, join_kw, inner_kw, left_kw,
  right_kw, cross_kw, on_kw, group_kw, by_kw, order_kw, asc_kw, desc_kw, having_kw, limit_kw,
  offset_kw, distinct_kw, exists_kw, as_kw, if_kw, integer_kw, bigint_kw, float_kw, double_kw,
  varchar_kw, text_kw, boolean_kw, not_kw, null_lit, integer_lit, identifier, star, eq, lparen,
  rparen, comma, semicolon,
}
use seeddb.Parser.Ast.{Expr, OptExpr, no_expr, an_expr, Exprs}
use seeddb.Parser.Stream.{
  Tokens, Parsed, ok, syntax_error, no_fuel, P, and_then, ◌>>=◌, ◌>>◌, pure, fail, check, accept,
  require, require_name, take_op, comma_list, same_type,
}
use seeddb.Parser.Expressions.Primary.{optional_clause, to_exprs}
use seeddb.Parser.Expressions.{parse_expression}
use seeddb.Executor.Joins.{JoinType, cross, inner, left_outer, right_outer}
use seeddb.Executor.Select.{SelectItem, OrderByItem, SelectStmt}
use seeddb.Executor.Statements.{
  DataType, int_type, bigint_type, float_type, double_type, varchar_type, text_type, boolean_type,
  ColumnDef, CreateTableStmt, DropTableStmt, InsertStmt, UpdateStmt, DeleteStmt,
}

-- `TableRef`; an empty alias is none.
pub record TableRef : Type 0 where
  pub name : Bytes
  pub alias : Bytes

pub record JoinClause : Type 0 where
  pub join_type : JoinType
  pub table : TableRef
  pub condition : OptExpr

-- An alias, with or without AS; an empty one where there is none.
unfoldable pub optional_alias : P Bytes
unfolding accept require_name check
optional_alias = do
  has_as ← accept as_kw
  elim has_as [
    | true ↦ require_name
    | false ↦ λ ts. elim (check identifier ts) [ true ↦ require_name ts | false ↦ ok [] ts ]
  ]

unfoldable pub parse_table_ref : P TableRef
unfolding require_name optional_alias
parse_table_ref = do
  name ← require_name
  alias ← optional_alias
  pure (record { name = name; alias = alias })

-- The tables behind commas, with fuel; each turn takes a token.
unfoldable pub comma_tables : ℕ → P (List JoinClause)
unfolding accept parse_table_ref
comma_tables zero = λ ts. no_fuel
comma_tables (suc n) = do
  more ← accept comma
  elim more [
    | true ↦ do
      table ← parse_table_ref
      joins ← comma_tables n
      pure (record { join_type = cross; table = table; condition = no_expr } ∷ joins)
    | false ↦ pure []
  ]

unfoldable pub join_ops : TokenType → Option JoinType
join_ops inner_kw = some inner
join_ops left_kw = some left_outer
join_ops right_kw = some right_outer
join_ops cross_kw = some cross
join_ops _ = none

-- The type of a join: INNER where only JOIN stands there.
unfoldable pub parse_join_type : P JoinType
unfolding take_op join_ops
parse_join_type ts = elim (take_op join_ops ts) [
  | none ↦ ok inner ts
  | some (type, rest) ↦ ok type rest
]

-- The condition of a join, by whether ON stands there.
unfoldable pub join_condition : P Expr → JoinType → Bool → P OptExpr
join_condition expr cross true = fail
join_condition expr cross false = pure no_expr
join_condition expr _ true = do e ← expr; pure (an_expr e)
join_condition expr _ false = fail

unfoldable pub parse_join_clause : P Expr → P JoinClause
unfolding parse_join_type require parse_table_ref accept join_condition
parse_join_clause expr = do
  type ← parse_join_type
  require join_kw
  table ← parse_table_ref
  has_on ← accept on_kw
  condition ← join_condition expr type has_on
  pure (record { join_type = type; table = table; condition = condition })

-- The tokens that a join may start with.
unfoldable pub starts_join : Tokens → Bool
unfolding check
starts_join ts =
    check inner_kw ts
    || check left_kw ts
    || check right_kw ts
    || check cross_kw ts
    || check join_kw ts

-- The loop over the explicit joins, with fuel; each turn takes a token.
unfoldable pub join_loop : P Expr → ℕ → P (List JoinClause)
unfolding starts_join parse_join_clause
join_loop expr zero ts = no_fuel
join_loop expr (suc n) ts = elim (starts_join ts) [
  | true ↦ (do join ← parse_join_clause expr; joins ← join_loop expr n; pure (join ∷ joins)) ts
  | false ↦ ok [] ts
]

unfoldable pub parse_joins : P Expr → P (List JoinClause)
unfolding comma_tables join_loop
parse_joins expr = do
  tables ← λ ts. comma_tables (suc (length ts)) ts
  joins ← λ ts. join_loop expr (suc (length ts)) ts
  pure (tables ++ joins)
