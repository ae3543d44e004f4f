-- ===== src/Parser/Expressions/Primary.antt =====
-- src/parser/parser.cpp: parsePrimaryExpr and what it calls. `expr` is the parser of expressions.
use seeddb.Base.{ℕ, zero, suc, Bool, true, false, List, [], ◌∷◌, Bytes, length}
use seeddb.Parser.Token.{
  TokenType, TokenValue, no_value, bool_value, star, null_lit, lparen, rparen, comma, dot,
  distinct_kw, case_kw, when_kw, then_kw, else_kw, end_kw, coalesce_kw, nullif_kw, count_kw, sum_kw,
  avg_kw, min_kw, max_kw, integer_lit, float_lit, string_lit, true_lit, false_lit, identifier,
}
use seeddb.Parser.Ast.{
  Expr, literal, column_ref, aggregate, case_expr, coalesce, nullif, function_call, OptExpr,
  no_expr, an_expr, Exprs, no_exprs, more_exprs, Whens, no_whens, more_whens, AggregateType, count,
  sum, avg, min, max,
}
use seeddb.Parser.Stream.{
  ok, syntax_error, no_fuel, P, ◌>>=◌, ◌>>◌, pure, fail, check, accept, require, require_name,
  comma_list, get_text,
}

unfoldable pub to_exprs : List Expr → Exprs
to_exprs [] = no_exprs
to_exprs (e ∷ es) = more_exprs e (to_exprs es)

-- The loop over WHEN clauses, with fuel; each turn takes a token.
unfoldable pub when_loop : P Expr → ℕ → P Whens
unfolding accept require
when_loop expr zero = λ ts. no_fuel
when_loop expr (suc n) = do
  present ← accept when_kw
  elim present [
    | true ↦ do
      condition ← expr
      require then_kw
      result ← expr
      whens ← when_loop expr n
      pure (more_whens condition result whens)
    | false ↦ pure no_whens
  ]

-- A clause that its keyword announces.
unfoldable pub optional_clause : TokenType → P Expr → P OptExpr
unfolding accept
optional_clause keyword expr = do
  present ← accept keyword
  elim present [ true ↦ do e ← expr; pure (an_expr e) | false ↦ pure no_expr ]

-- `parseCaseExpr` behind CASE, with the tokens that are left then.
unfoldable pub parse_case_expr : P Expr → P Expr
unfolding when_loop optional_clause require
parse_case_expr expr ts =
    (do
      whens ← when_loop expr (suc (length ts))
      els ← optional_clause else_kw expr
      require end_kw
      pure (case_expr whens els))
      ts

-- `parseCoalesceExpr` behind COALESCE
unfoldable pub parse_coalesce_expr : P Expr → P Expr
unfolding require comma_list to_exprs
parse_coalesce_expr expr = do
  require lparen
  args ← comma_list expr
  require rparen
  pure (coalesce (to_exprs args))

-- `parseNullifExpr` behind NULLIF
unfoldable pub parse_nullif_expr : P Expr → P Expr
unfolding require
parse_nullif_expr expr = do
  require lparen
  expr1 ← expr
  require comma
  expr2 ← expr
  require rparen
  pure (nullif expr1 expr2)

-- The argument of an aggregate.
unfoldable pub aggregate_argument : AggregateType → P Expr → P Expr
unfolding accept require
aggregate_argument type expr = do
  is_distinct ← accept distinct_kw
  arg ← expr
  require rparen
  pure (aggregate type (an_expr arg) false is_distinct)

unfoldable pub accepts_star : AggregateType → P Bool
unfolding accept
accepts_star count = accept star
accepts_star _ = pure false

-- `parseAggregateExpr` behind the function's name
unfoldable pub parse_aggregate_expr : AggregateType → P Expr → P Expr
unfolding accept require aggregate_argument
parse_aggregate_expr type expr = do
  require lparen
  is_star ← accepts_star type
  elim is_star [
    | true ↦ do require rparen; pure (aggregate type no_expr true false)
    | false ↦ aggregate_argument type expr
  ]

-- The arguments of a call behind its '('.
unfoldable pub call_arguments : P Expr → P Exprs
unfolding check comma_list to_exprs
call_arguments expr ts = elim (check rparen ts) [
  | true ↦ ok no_exprs ts
  | false ↦ (do args ← comma_list expr; pure (to_exprs args)) ts
]

-- What follows an identifier.
unfoldable pub parse_name : P Expr → Bytes → P Expr
unfolding accept require require_name call_arguments
parse_name expr name = do
  is_call ← accept lparen
  elim is_call [
    | true ↦ do args ← call_arguments expr; require rparen; pure (function_call name args)
    | false ↦ do
      is_qualified ← accept dot
      elim is_qualified [
        | true ↦ do col ← require_name; pure (column_ref name col)
        | false ↦ pure (column_ref [] name)
      ]
  ]

-- `parsePrimaryExpr` behind its first token, by the token's type and value.
unfoldable pub primary_of : P Expr → TokenType → TokenValue → P Expr
unfolding parse_case_expr parse_coalesce_expr parse_nullif_expr parse_aggregate_expr require
    parse_name
primary_of expr case_kw value = parse_case_expr expr
primary_of expr coalesce_kw value = parse_coalesce_expr expr
primary_of expr nullif_kw value = parse_nullif_expr expr
primary_of expr count_kw value = parse_aggregate_expr count expr
primary_of expr sum_kw value = parse_aggregate_expr sum expr
primary_of expr avg_kw value = parse_aggregate_expr avg expr
primary_of expr min_kw value = parse_aggregate_expr min expr
primary_of expr max_kw value = parse_aggregate_expr max expr
primary_of expr integer_lit value = pure (literal value)
primary_of expr float_lit value = pure (literal value)
primary_of expr string_lit value = pure (literal value)
primary_of expr true_lit value = pure (literal (bool_value true))
primary_of expr false_lit value = pure (literal (bool_value false))
primary_of expr null_lit value = pure (literal no_value)
primary_of expr lparen value = do e ← expr; require rparen; pure e
primary_of expr identifier value = parse_name expr (get_text value)
primary_of expr _ value = fail

unfoldable pub parse_primary_expr : P Expr → P Expr
unfolding primary_of
parse_primary_expr expr [] = syntax_error
parse_primary_expr expr (t ∷ ts) = primary_of expr t.type t.value ts
