-- ===== src/Parser/Expressions/Levels.antt =====
-- What the levels of src/parser/parser.cpp read off the front of written expressions.
use seeddb.Base.{ℕ, suc, ◌≤◌, ◌<◌, [], ◌∷◌, Option, none, length, ◌≡◌, refl, ◌∙◌, arith}
use seeddb.Parser.Token.{TokenType}
use seeddb.Parser.Ast.{Expr, BinaryOp, UnaryOp}
use seeddb.Parser.Stream.{Tokens, ok, P, take_op}
use seeddb.Parser.Expressions.Loops.{
  binary_loop, binary_level, prefix_loop, prefix_level, or_ops, and_ops, comparison_ops,
  postfix_ops, additive_ops, multiplicative_ops, not_ops, sign_ops,
}
use seeddb.Parser.Expressions.Primary.{parse_primary_expr}
use seeddb.Parser.Expressions.{
  parse_unary_expr, parse_multiplicative_expr, parse_additive_expr, parse_comparison_expr,
  comparison_tail, postfix_tail, parse_not_expr, parse_and_expr, parse_or_expr, parse_expression,
}
use seeddb.Parser.Expressions.Writer.{Writer}

-- How tightly a token holds on to the expression in front of it: the rank of the operator that it is,
-- above all ranks of operators for what extends a name.
unfoldable pub tightness : TokenType → ℕ
tightness TokenType.or_kw = 1
tightness TokenType.and_kw = 2
tightness TokenType.eq = 4
tightness TokenType.ne = 4
tightness TokenType.lt = 4
tightness TokenType.gt = 4
tightness TokenType.le = 4
tightness TokenType.ge = 4
tightness TokenType.is_kw = 4
tightness TokenType.not_kw = 4
tightness TokenType.between_kw = 4
tightness TokenType.like_kw = 4
tightness TokenType.in_kw = 4
tightness TokenType.plus = 5
tightness TokenType.minus = 5
tightness TokenType.concat = 5
tightness TokenType.star = 6
tightness TokenType.slash = 6
tightness TokenType.percent = 6
tightness TokenType.lparen = 8
tightness TokenType.dot = 8
tightness _ = 0

abbrev pub bound : Tokens → ℕ
bound [] = 0
bound (t ∷ ts) = tightness t.type

-- The operators of a level have its rank.
abbrev HasRank : {A : Type 0} → (TokenType → Option A) → ℕ → Type 0
HasRank ops k = (t : TokenType) → tightness t < k → ops t ≡ none

take_op-HasRank :
    {A : Type 0} (ops : TokenType → Option A) (k : ℕ)
    → HasRank ops k
    → (r : Tokens) → bound r < k
    → take_op ops r ≡ none
unfolding take_op
take_op-HasRank ops k h [] lt = refl
take_op-HasRank ops k h (t ∷ ts) lt = rw (h t.type lt) refl

or_ops-HasRank : HasRank or_ops 1
unfolding or_ops tightness
or_ops-HasRank TokenType.or_kw lt = absurd (omega arith)
or_ops-HasRank _ lt = refl

and_ops-HasRank : HasRank and_ops 2
unfolding and_ops tightness
and_ops-HasRank TokenType.and_kw lt = absurd (omega arith)
and_ops-HasRank _ lt = refl

comparison_ops-HasRank : HasRank comparison_ops 4
unfolding comparison_ops tightness
comparison_ops-HasRank TokenType.eq lt = absurd (omega arith)
comparison_ops-HasRank TokenType.ne lt = absurd (omega arith)
comparison_ops-HasRank TokenType.lt h = absurd (omega arith)
comparison_ops-HasRank TokenType.gt lt = absurd (omega arith)
comparison_ops-HasRank TokenType.le lt = absurd (omega arith)
comparison_ops-HasRank TokenType.ge lt = absurd (omega arith)
comparison_ops-HasRank _ lt = refl

postfix_ops-HasRank : HasRank postfix_ops 4
unfolding postfix_ops tightness
postfix_ops-HasRank TokenType.is_kw lt = absurd (omega arith)
postfix_ops-HasRank TokenType.not_kw lt = absurd (omega arith)
postfix_ops-HasRank TokenType.between_kw lt = absurd (omega arith)
postfix_ops-HasRank TokenType.like_kw lt = absurd (omega arith)
postfix_ops-HasRank TokenType.in_kw lt = absurd (omega arith)
postfix_ops-HasRank _ lt = refl

additive_ops-HasRank : HasRank additive_ops 5
unfolding additive_ops tightness
additive_ops-HasRank TokenType.plus lt = absurd (omega arith)
additive_ops-HasRank TokenType.minus lt = absurd (omega arith)
additive_ops-HasRank TokenType.concat lt = absurd (omega arith)
additive_ops-HasRank _ lt = refl

multiplicative_ops-HasRank : HasRank multiplicative_ops 6
unfolding multiplicative_ops tightness
multiplicative_ops-HasRank TokenType.star lt = absurd (omega arith)
multiplicative_ops-HasRank TokenType.slash lt = absurd (omega arith)
multiplicative_ops-HasRank TokenType.percent lt = absurd (omega arith)
multiplicative_ops-HasRank _ lt = refl

pub no_comparison :
    (px : P Expr) (e : Expr) (r : Tokens) → bound r < 4 → comparison_tail px e r ≡ ok e r
unfolding comparison_tail
no_comparison px e r lt =
    rw (take_op-HasRank comparison_ops 4 comparison_ops-HasRank r lt, comparison_tail) refl

pub no_postfix : (px : P Expr) (e : Expr) (r : Tokens) → bound r < 4 → postfix_tail px e r ≡ ok e r
unfolding postfix_tail
no_postfix px e r lt =
    rw (take_op-HasRank postfix_ops 4 postfix_ops-HasRank r lt, postfix_tail) refl

-- In front of tokens that hold on less tightly than `k`, the parser reads the expression off what the
-- writer wrote, and no more.
pub record At (p : P Expr → P Expr) (k : ℕ) (w : Writer) (e : Expr) : Type 0 where
  pub reads :
      (f : ℕ) (r : Tokens) → length (w r) ≤ f → bound r < k → p (parse_expression f) (w r) ≡ ok e r

-- In front of operators of its own too, the level comes to its loop with the expression read.
pub record Chain (ops : TokenType → Option BinaryOp) (sub : P Expr → P Expr) (k : ℕ) (w : Writer)
    (e : Expr) : Type 0 where
  pub loops :
      (f : ℕ) (r : Tokens)
      → length (w r) ≤ f
      → bound r < suc k
      → binary_level ops (sub (parse_expression f)) (w r)
        ≡ binary_loop ops (sub (parse_expression f)) (suc (length r)) e r

abbrev pub NoPrefix : (TokenType → Option UnaryOp) → Writer → Type 0
NoPrefix ops w = (r : Tokens) → take_op ops (w r) ≡ none

module _ {w : Writer} {e : Expr} where
  pub weaken : {p : P Expr → P Expr} {j k : ℕ} → j ≤ k → At p k w e → At p j w e
  weaken le a = record { reads = λ f r l lt. a.reads f r l (omega arith) }

  Chain-At :
      {sub : P Expr → P Expr} {k : ℕ} (ops : TokenType → Option BinaryOp)
      → At sub (suc k) w e
      → Chain ops sub k w e
  unfolding binary_level
  Chain-At ops a = record { loops = λ f r l lt. rw (a.reads f r l lt) refl }

  At-Chain :
      {sub : P Expr → P Expr} {k : ℕ} {ops : TokenType → Option BinaryOp}
      → HasRank ops k
      → Chain ops sub k w e
      → At (λ px. binary_level ops (sub px)) k w e
  unfolding binary_loop
  At-Chain {k} {ops} h c = record {
    reads = λ f r l lt.
        c.loops f r l (omega arith) ∙ rw (take_op-HasRank ops k h r lt, binary_loop) refl;
  }

  At-prefix :
      {sub : P Expr → P Expr} {k : ℕ} (ops : TokenType → Option UnaryOp)
      → NoPrefix ops w
      → At sub k w e
      → At (λ px. prefix_level ops (sub px)) k w e
  unfolding prefix_level prefix_loop
  At-prefix ops h a = record { reads = λ f r l lt. rw (h r, prefix_loop) (a.reads f r l lt) }

  -- From each level to the next.
  pub unary_of_primary :
      NoPrefix sign_ops w → At parse_primary_expr 8 w e → At parse_unary_expr 8 w e
  unfolding parse_unary_expr
  unary_of_primary h a = At-prefix sign_ops h a

  pub products_of_unary :
      At parse_unary_expr 7 w e → Chain multiplicative_ops parse_unary_expr 6 w e
  products_of_unary a = Chain-At multiplicative_ops a

  pub At-products :
      Chain multiplicative_ops parse_unary_expr 6 w e → At parse_multiplicative_expr 6 w e
  unfolding parse_multiplicative_expr
  At-products c = At-Chain multiplicative_ops-HasRank c

  pub sums_of_products :
      Chain multiplicative_ops parse_unary_expr 6 w e
      → Chain additive_ops parse_multiplicative_expr 5 w e
  sums_of_products c = Chain-At additive_ops (At-products c)

  pub At-sums : Chain additive_ops parse_multiplicative_expr 5 w e → At parse_additive_expr 5 w e
  unfolding parse_additive_expr
  At-sums c = At-Chain additive_ops-HasRank c

  pub comparison_of_sums :
      Chain additive_ops parse_multiplicative_expr 5 w e → At parse_comparison_expr 4 w e
  unfolding parse_comparison_expr
  comparison_of_sums c = record {
    reads = λ f r l lt.
        rw
          (
            (At-sums c).reads f r l (omega arith),
            no_comparison (parse_expression f) e r lt,
            no_postfix (parse_expression f) e r lt,
          )
          refl;
  }

  pub not_of_comparison :
      NoPrefix not_ops w → At parse_comparison_expr 4 w e → At parse_not_expr 4 w e
  unfolding parse_not_expr
  not_of_comparison h a = At-prefix not_ops h a

  pub conjunction_of_not : At parse_not_expr 3 w e → Chain and_ops parse_not_expr 2 w e
  conjunction_of_not a = Chain-At and_ops a

  pub disjunction_of_conjunction :
      Chain and_ops parse_not_expr 2 w e → Chain or_ops parse_and_expr 1 w e
  unfolding parse_and_expr
  disjunction_of_conjunction c = Chain-At or_ops (At-Chain and_ops-HasRank c)

  pub At-conjunction : Chain and_ops parse_not_expr 2 w e → At parse_and_expr 2 w e
  unfolding parse_and_expr
  At-conjunction c = At-Chain and_ops-HasRank c

  pub At-disjunction : Chain or_ops parse_and_expr 1 w e → At parse_or_expr 1 w e
  unfolding parse_or_expr
  At-disjunction c = At-Chain or_ops-HasRank c
