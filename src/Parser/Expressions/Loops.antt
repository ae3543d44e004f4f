-- ===== src/Parser/Expressions/Loops.antt =====
-- src/parser/parser.cpp: the levels of binary and of prefix operators, with the operators of each.
pub mod Progress
use seeddb.Base.{ℕ, zero, suc, Bool, true, false, List, [], ◌∷◌, Option, none, some, Bytes, length}
use seeddb.Parser.Token.{
  TokenType, TokenValue, no_value, bool_value, or_kw, and_kw, not_kw, eq, ne, lt, gt, le, ge, plus,
  minus, concat, star, slash, percent, is_kw, between_kw, like_kw, in_kw, null_lit, lparen, rparen,
  comma, dot, distinct_kw, case_kw, when_kw, then_kw, else_kw, end_kw, coalesce_kw, nullif_kw,
  count_kw, sum_kw, avg_kw, min_kw, max_kw, integer_lit, float_lit, string_lit, true_lit, false_lit,
  identifier,
}
use seeddb.Parser.Ast.{
  Expr, literal, column_ref, binary, unary, is_null_expr, aggregate, case_expr, in_expr,
  between_expr, like_expr, coalesce, nullif, function_call, OptExpr, no_expr, an_expr, Exprs,
  no_exprs, more_exprs, Whens, no_whens, more_whens, BinaryOp, or_op, and_op, eq_op, ne_op, lt_op,
  gt_op, le_op, ge_op, add_op, sub_op, concat_op, mul_op, div_op, mod_op, UnaryOp, not_op, neg_op,
  plus_op, AggregateType, count, sum, avg, min, max,
}
use seeddb.Parser.Stream.{
  ok, syntax_error, no_fuel, P, and_then, ◌>>=◌, ◌>>◌, pure, fail, check, accept, require,
  require_name, take_op, comma_list, get_text,
}

unfoldable pub or_ops : TokenType → Option BinaryOp
or_ops or_kw = some or_op
or_ops _ = none

unfoldable pub and_ops : TokenType → Option BinaryOp
and_ops and_kw = some and_op
and_ops _ = none

unfoldable pub comparison_ops : TokenType → Option BinaryOp
comparison_ops eq = some eq_op
comparison_ops ne = some ne_op
comparison_ops lt = some lt_op
comparison_ops gt = some gt_op
comparison_ops le = some le_op
comparison_ops ge = some ge_op
comparison_ops _ = none

unfoldable pub additive_ops : TokenType → Option BinaryOp
additive_ops plus = some add_op
additive_ops minus = some sub_op
additive_ops concat = some concat_op
additive_ops _ = none

unfoldable pub multiplicative_ops : TokenType → Option BinaryOp
multiplicative_ops star = some mul_op
multiplicative_ops slash = some div_op
multiplicative_ops percent = some mod_op
multiplicative_ops _ = none

unfoldable pub not_ops : TokenType → Option UnaryOp
not_ops not_kw = some not_op
not_ops _ = none

unfoldable pub sign_ops : TokenType → Option UnaryOp
sign_ops minus = some neg_op
sign_ops plus = some plus_op
sign_ops _ = none

-- What may follow the operand of a comparison.
pub data Postfix : Type 0 where
  is_post not_post between_post like_post in_post : Postfix

unfoldable pub postfix_ops : TokenType → Option Postfix
postfix_ops is_kw = some Postfix.is_post
postfix_ops not_kw = some Postfix.not_post
postfix_ops between_kw = some Postfix.between_post
postfix_ops like_kw = some Postfix.like_post
postfix_ops in_kw = some Postfix.in_post
postfix_ops _ = none

-- The loop of a level of left-associative operators behind its first operand, with fuel; each turn
-- takes an operator.
unfoldable pub binary_loop : (TokenType → Option BinaryOp) → P Expr → ℕ → Expr → P Expr
unfolding take_op
binary_loop ops sub zero left ts = no_fuel
binary_loop ops sub (suc n) left ts = elim (take_op ops ts) [
  | none ↦ ok left ts
  | some (op, rest) ↦ and_then (sub rest) (λ right. binary_loop ops sub n (binary op left right))
]

unfoldable pub binary_level : (TokenType → Option BinaryOp) → P Expr → P Expr
unfolding binary_loop
binary_level ops sub ts =
    and_then (sub ts) (λ left rest. binary_loop ops sub (suc (length rest)) left rest)

-- The recursion of a level of prefix operators, with fuel; each turn takes an operator.
unfoldable pub prefix_loop : (TokenType → Option UnaryOp) → P Expr → ℕ → P Expr
unfolding take_op
prefix_loop ops sub zero ts = no_fuel
prefix_loop ops sub (suc n) ts = elim (take_op ops ts) [
  | none ↦ sub ts
  | some (op, rest) ↦ and_then (prefix_loop ops sub n rest) (λ e. pure (unary op e))
]

unfoldable pub prefix_level : (TokenType → Option UnaryOp) → P Expr → P Expr
unfolding prefix_loop
prefix_level ops sub ts = prefix_loop ops sub (suc (length ts)) ts
