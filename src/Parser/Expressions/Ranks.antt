-- ===== src/Parser/Expressions/Ranks.antt =====
-- What every level of src/parser/parser.cpp reads of a written expression, from what its own level does:
-- the looser levels pass it on, and the tighter ones read it in brackets.
use seeddb.Base.{Bool-cases, ℕ, zero, suc, ◌<◌, ◌∷◌, length, ◌≡◌, refl, arith, inl, inr, ltb, ◌≤◌}
use seeddb.Parser.Token.{TokenType}
use seeddb.Parser.Ast.{Expr}
use seeddb.Parser.Stream.{Tokens, ok, take_op}
use seeddb.Parser.Expressions.{
  parse_expression, parse_not_expr, parse_and_expr, parse_comparison_expr, parse_unary_expr,
  parse_multiplicative_expr,
}
use seeddb.Parser.Expressions.Loops.{
  and_ops, not_ops, or_ops, sign_ops, additive_ops, multiplicative_ops,
}
use seeddb.Parser.Expressions.Primary.{parse_primary_expr}
use seeddb.Parser.Expressions.Writer.{Writer, word, operand, bracket}
use seeddb.Parser.Expressions.Operators.{Grows}
use seeddb.Parser.Expressions.Levels.{
  At, Chain, tightness, NoPrefix, conjunction_of_not, disjunction_of_conjunction, unary_of_primary,
  bound, products_of_unary, sums_of_products, weaken, At-disjunction, comparison_of_sums,
  not_of_comparison,
}

-- An expression of rank `j` as the operand of each level.
pub record AllReads (j : ℕ) (w : Writer) (e : Expr) : Type 0 where
  pub primary : At parse_primary_expr 8 (operand 8 j w) e
  pub unary : At parse_unary_expr 7 (operand 7 j w) e
  pub products : Chain multiplicative_ops parse_unary_expr 6 (operand 6 j w) e
  pub sums : Chain additive_ops parse_multiplicative_expr 5 (operand 5 j w) e
  pub negation : At parse_not_expr 3 (operand 3 j w) e
  pub conjunction : Chain and_ops parse_not_expr 2 (operand 2 j w) e
  pub disjunction : Chain or_ops parse_and_expr 1 (operand 1 j w) e
  pub whole : Chain or_ops parse_and_expr 1 w e
  pub grows : Grows w
  pub no_not : 4 ≤ j → NoPrefix not_ops w

pub operand-Grows : (due j : ℕ) (w : Writer) → Grows w → Grows (operand due j w)
operand-Grows due j w g r =
    let inner = g (word TokenType.rparen ∷ r) in
    let bare = g r in
    elim (Bool-cases (ltb j due)) [ inl e ↦ rw e (omega arith) | inr e ↦ rw e (omega arith) ]

pub operand-NoPrefix :
    (due j : ℕ) (w : Writer)
    → 4 ≤ due
    → (4 ≤ j → NoPrefix not_ops w)
    → NoPrefix not_ops (operand due j w)
unfolding take_op not_ops
operand-NoPrefix due j w le h r = elim (Bool-cases (ltb j due)) [
  | inl e ↦ rw e refl
  | inr e ↦ rw e (h (ground (arith, e)) r)
]

-- The whole expression, with the fuel that the nesting leaves.
pub parse_expression-whole :
    {w : Writer} {e : Expr}
    → Chain or_ops parse_and_expr 1 w e
    → (f : ℕ) (r : Tokens) → length (w r) < f
    → bound r < 1
    → parse_expression f (w r) ≡ ok e r
unfolding parse_expression
parse_expression-whole c zero r l lt = absurd (omega arith)
parse_expression-whole c (suc f) r l lt = (At-disjunction c).reads f r (omega arith) lt

primary-bracket :
    {w : Writer} {e : Expr}
    → Chain or_ops parse_and_expr 1 w e
    → At parse_primary_expr 8 (bracket w) e
unfolding parse_primary_expr tightness
primary-bracket c = record {
  reads = λ f r l lt.
      rw (parse_expression-whole c f (word TokenType.rparen ∷ r) (omega arith) (omega arith)) refl;
}

module _ {w : Writer} {e : Expr} where
  pub from_primary :
      At parse_primary_expr 8 w e
      → NoPrefix sign_ops w
      → NoPrefix not_ops w
      → Grows w
      → AllReads 8 w e
  from_primary p no_sign no_not g =
      let u = unary_of_primary no_sign p in
      let c6 = products_of_unary (weaken (omega arith) u) in
      let c5 = sums_of_products c6 in
      let n = weaken {j = 3} (omega arith) (not_of_comparison no_not (comparison_of_sums c5)) in
      let c2 = conjunction_of_not n in
      let c1 = disjunction_of_conjunction c2 in
      record {
        primary = p;
        unary = weaken (omega arith) u;
        products = c6;
        sums = c5;
        negation = n;
        conjunction = c2;
        disjunction = c1;
        whole = c1;
        grows = g;
        no_not = λ le. no_not;
      }

bracketed :
    {w : Writer} {e : Expr} → Chain or_ops parse_and_expr 1 w e → Grows w → AllReads 8 (bracket w) e
unfolding take_op sign_ops not_ops
bracketed {w} c g =
    from_primary (primary-bracket c) (λ r. refl) (λ r. refl)
      (λ r. let inner = g (word TokenType.rparen ∷ r) in omega arith)

module _ {w : Writer} {e : Expr} (g : Grows w) where
  pub from_disjunction : Chain or_ops parse_and_expr 1 w e → AllReads 1 w e
  from_disjunction c1 =
      let b = bracketed c1 g in
      record {
        primary = b.primary;
        unary = b.unary;
        products = b.products;
        sums = b.sums;
        negation = b.negation;
        conjunction = b.conjunction;
        disjunction = c1;
        whole = c1;
        grows = g;
        no_not = λ le. absurd (omega arith);
      }

  pub from_conjunction : Chain and_ops parse_not_expr 2 w e → AllReads 2 w e
  from_conjunction c2 =
      let c1 = disjunction_of_conjunction c2 in
      let b = bracketed c1 g in
      record {
        primary = b.primary;
        unary = b.unary;
        products = b.products;
        sums = b.sums;
        negation = b.negation;
        conjunction = c2;
        disjunction = c1;
        whole = c1;
        grows = g;
        no_not = λ le. absurd (omega arith);
      }

  pub from_negation : At parse_not_expr 3 w e → AllReads 3 w e
  from_negation n =
      let c2 = conjunction_of_not n in
      let c1 = disjunction_of_conjunction c2 in
      let b = bracketed c1 g in
      record {
        primary = b.primary;
        unary = b.unary;
        products = b.products;
        sums = b.sums;
        negation = n;
        conjunction = c2;
        disjunction = c1;
        whole = c1;
        grows = g;
        no_not = λ le. absurd (omega arith);
      }

  pub from_comparison : NoPrefix not_ops w → At parse_comparison_expr 4 w e → AllReads 4 w e
  from_comparison no_not k =
      let n = weaken {j = 3} (omega arith) (not_of_comparison no_not k) in
      let c2 = conjunction_of_not n in
      let c1 = disjunction_of_conjunction c2 in
      let b = bracketed c1 g in
      record {
        primary = b.primary;
        unary = b.unary;
        products = b.products;
        sums = b.sums;
        negation = n;
        conjunction = c2;
        disjunction = c1;
        whole = c1;
        grows = g;
        no_not = λ le. no_not;
      }

  pub from_sums :
      NoPrefix not_ops w → Chain additive_ops parse_multiplicative_expr 5 w e → AllReads 5 w e
  from_sums no_not c5 =
      let k = comparison_of_sums c5 in
      let n = weaken {j = 3} (omega arith) (not_of_comparison no_not k) in
      let c2 = conjunction_of_not n in
      let c1 = disjunction_of_conjunction c2 in
      let b = bracketed c1 g in
      record {
        primary = b.primary;
        unary = b.unary;
        products = b.products;
        sums = c5;
        negation = n;
        conjunction = c2;
        disjunction = c1;
        whole = c1;
        grows = g;
        no_not = λ le. no_not;
      }

  pub from_products :
      NoPrefix not_ops w → Chain multiplicative_ops parse_unary_expr 6 w e → AllReads 6 w e
  from_products no_not c6 =
      let c5 = sums_of_products c6 in
      let k = comparison_of_sums c5 in
      let n = weaken {j = 3} (omega arith) (not_of_comparison no_not k) in
      let c2 = conjunction_of_not n in
      let c1 = disjunction_of_conjunction c2 in
      let b = bracketed c1 g in
      record {
        primary = b.primary;
        unary = b.unary;
        products = c6;
        sums = c5;
        negation = n;
        conjunction = c2;
        disjunction = c1;
        whole = c1;
        grows = g;
        no_not = λ le. no_not;
      }

  pub from_unary : NoPrefix not_ops w → At parse_unary_expr 7 w e → AllReads 7 w e
  from_unary no_not u =
      let c6 = products_of_unary u in
      let c5 = sums_of_products c6 in
      let k = comparison_of_sums c5 in
      let n = weaken {j = 3} (omega arith) (not_of_comparison no_not k) in
      let c2 = conjunction_of_not n in
      let c1 = disjunction_of_conjunction c2 in
      let b = bracketed c1 g in
      record {
        primary = b.primary;
        unary = u;
        products = c6;
        sums = c5;
        negation = n;
        conjunction = c2;
        disjunction = c1;
        whole = c1;
        grows = g;
        no_not = λ le. no_not;
      }
