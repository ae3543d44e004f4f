-- ===== src/Parser/Expressions.antt =====
-- src/parser/parser.cpp: the expressions, by operator precedence. Each level is a function of the
-- parser of whole expressions, which is the only recursion that nests, and has fuel for that.
pub mod Loops
pub mod Primary
pub mod Progress
pub mod Writer
pub mod Levels
pub mod Operators
pub mod Ranks
pub mod Starts
pub mod Primaries
pub mod Aggregates
pub mod Cases
pub mod Comparisons
pub mod Binary
pub mod RoundTrip
use seeddb.Base.{ℕ, zero, suc, Bool, true, false, List, [], ◌∷◌, Option, none, some, Bytes, length}
use seeddb.Parser.Token.{
  TokenType, TokenValue, no_value, bool_value, or_kw, and_kw, not_kw, eq, ne, lt, gt, le, ge, plus,
  minus, concat, star, slash, percent, is_kw, between_kw, like_kw, in_kw, null_lit, lparen, rparen,
  comma, dot, distinct_kw, case_kw, when_kw, then_kw, else_kw, end_kw, coalesce_kw, nullif_kw,
  count_kw, sum_kw, avg_kw, min_kw, max_kw, integer_lit, float_lit, string_lit, true_lit, false_lit,
  identifier,
}
use seeddb.Parser.Ast.{
  Expr, literal, column_ref, binary, unary, is_null_expr, aggregate, case_expr, in_expr,
  between_expr, like_expr, coalesce, nullif, function_call, OptExpr, no_expr, an_expr, Exprs,
  no_exprs, more_exprs, Whens, no_whens, more_whens, BinaryOp, or_op, and_op, eq_op, ne_op, lt_op,
  gt_op, le_op, ge_op, add_op, sub_op, concat_op, mul_op, div_op, mod_op, UnaryOp, not_op, neg_op,
  plus_op, AggregateType, count, sum, avg, min, max,
}
use seeddb.Parser.Stream.{
  ok, syntax_error, no_fuel, P, and_then, ◌>>=◌, ◌>>◌, pure, fail, check, accept, require,
  require_name, take_op, comma_list, get_text,
}
use seeddb.Parser.Expressions.Loops.{
  or_ops, and_ops, comparison_ops, additive_ops, multiplicative_ops, not_ops, sign_ops, Postfix,
  postfix_ops, binary_level, prefix_level,
}
use seeddb.Parser.Expressions.Primary.{to_exprs, parse_primary_expr}

unfoldable pub parse_unary_expr : P Expr → P Expr
unfolding prefix_level sign_ops parse_primary_expr
parse_unary_expr expr = prefix_level sign_ops (parse_primary_expr expr)

unfoldable pub parse_multiplicative_expr : P Expr → P Expr
unfolding binary_level multiplicative_ops parse_unary_expr
parse_multiplicative_expr expr = binary_level multiplicative_ops (parse_unary_expr expr)

unfoldable pub parse_additive_expr : P Expr → P Expr
unfolding binary_level additive_ops parse_multiplicative_expr
parse_additive_expr expr = binary_level additive_ops (parse_multiplicative_expr expr)

-- `parseBetweenExpr`, `parseLikeExpr` and `parseInExpr` behind their keyword.
unfoldable pub parse_between_expr : P Expr → Expr → Bool → P Expr
unfolding parse_additive_expr require
parse_between_expr expr left negated = do
  low ← parse_additive_expr expr
  require and_kw
  high ← parse_additive_expr expr
  pure (between_expr left low high negated)

unfoldable pub parse_like_expr : P Expr → Expr → Bool → P Expr
unfolding parse_primary_expr
parse_like_expr expr left negated = do
  pattern_expr ← parse_primary_expr expr
  pure (like_expr left pattern_expr negated)

unfoldable pub parse_in_expr : P Expr → Expr → Bool → P Expr
unfolding require comma_list to_exprs
parse_in_expr expr left negated = do
  require lparen
  values ← comma_list expr
  require rparen
  pure (in_expr left (to_exprs values) negated)

-- What stands behind a NOT, and the same without one.
abbrev pub negatable : P Expr → Expr → Bool → Postfix → P Expr
unfolding parse_between_expr parse_like_expr parse_in_expr
negatable expr left negated Postfix.between_post = parse_between_expr expr left negated
negatable expr left negated Postfix.like_post = parse_like_expr expr left negated
negatable expr left negated Postfix.in_post = parse_in_expr expr left negated
negatable expr left negated _ = fail

unfoldable pub parse_postfix : P Expr → Expr → Postfix → P Expr
unfolding negatable accept require postfix_ops take_op
parse_postfix expr left Postfix.is_post = do
  negated ← accept not_kw
  require null_lit
  pure (is_null_expr left negated)
parse_postfix expr left Postfix.not_post = λ ts. elim (take_op postfix_ops ts) [
  | none ↦ syntax_error
  | some (post, rest) ↦ negatable expr left true post rest
]
parse_postfix expr left post = negatable expr left false post

-- The optional comparison behind its left operand.
unfoldable pub comparison_tail : P Expr → Expr → P Expr
unfolding take_op comparison_ops parse_additive_expr
comparison_tail expr left ts = elim (take_op comparison_ops ts) [
  | none ↦ ok left ts
  | some (op, rest) ↦
      and_then (parse_additive_expr expr rest) (λ right. pure (binary op left right))
]

unfoldable pub postfix_tail : P Expr → Expr → P Expr
unfolding take_op postfix_ops parse_postfix
postfix_tail expr left ts = elim (take_op postfix_ops ts) [
  | none ↦ ok left ts
  | some (post, rest) ↦ parse_postfix expr left post rest
]

unfoldable pub parse_comparison_expr : P Expr → P Expr
unfolding parse_additive_expr comparison_tail postfix_tail
parse_comparison_expr expr = do
  first ← parse_additive_expr expr
  left ← comparison_tail expr first
  postfix_tail expr left

unfoldable pub parse_not_expr : P Expr → P Expr
unfolding prefix_level not_ops parse_comparison_expr
parse_not_expr expr = prefix_level not_ops (parse_comparison_expr expr)

unfoldable pub parse_and_expr : P Expr → P Expr
unfolding binary_level and_ops parse_not_expr
parse_and_expr expr = binary_level and_ops (parse_not_expr expr)

unfoldable pub parse_or_expr : P Expr → P Expr
unfolding binary_level or_ops parse_and_expr
parse_or_expr expr = binary_level or_ops (parse_and_expr expr)

-- `parseExpression`, with fuel for the nesting.
unfoldable pub parse_expression : ℕ → P Expr
unfolding parse_or_expr
parse_expression zero ts = no_fuel
parse_expression (suc f) ts = parse_or_expr (parse_expression f) ts
