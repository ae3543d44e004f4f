-- ===== src/Parser/Expressions/Binary.antt =====
-- Operators of two operands: what every level of src/parser/parser.cpp reads of them.
use seeddb.Base.{some, ℕ, suc, ◌≤◌, ◌∷◌, ◌≡◌, refl, sym, subst, arith}
use seeddb.Parser.Token.{TokenType}
use seeddb.Parser.Ast.{
  Expr, binary, BinaryOp, or_op, and_op, eq_op, ne_op, bang_eq_op, lt_op, gt_op, le_op, ge_op,
  add_op, sub_op, concat_op, mul_op, div_op, mod_op,
}
use seeddb.Parser.Stream.Progress.{Uses}
use seeddb.Parser.Expressions.{
  parse_expression, parse_unary_expr, parse_multiplicative_expr, parse_not_expr, parse_and_expr,
}
use seeddb.Parser.Expressions.Loops.{
  or_ops, and_ops, not_ops, additive_ops, multiplicative_ops, comparison_ops,
}
use seeddb.Parser.Expressions.Progress.{
  parse_expression-Uses, parse_primary_expr-Uses, parse_comparison_expr-Uses,
}
use seeddb.Parser.Expressions.Loops.Progress.{binary_level-Uses, prefix_level-Uses}
use seeddb.Parser.Expressions.Writer.{
  Writer, word, operand, left_rank, right_rank, binary_rank, binary_type, IsParsedOp,
}
use seeddb.Parser.Expressions.Levels.{At, Chain, NoPrefix, tightness, At-products, At-conjunction}
use seeddb.Parser.Expressions.Operators.{Grows, Chain-step}
use seeddb.Parser.Expressions.Ranks.{
  AllReads, operand-Grows, operand-NoPrefix, from_disjunction, from_conjunction, from_comparison,
  from_sums, from_products,
}
use seeddb.Parser.Expressions.Comparisons.{comparison-At}

unary-Uses : (f : ℕ) → Uses 1 (suc f) (parse_unary_expr (parse_expression f))
unfolding parse_unary_expr
unary-Uses f = prefix_level-Uses _ _ (parse_primary_expr-Uses (parse_expression-Uses f))

products-Uses : (f : ℕ) → Uses 1 (suc f) (parse_multiplicative_expr (parse_expression f))
unfolding parse_multiplicative_expr
products-Uses f = binary_level-Uses _ _ (unary-Uses f)

not-Uses : (f : ℕ) → Uses 1 (suc f) (parse_not_expr (parse_expression f))
unfolding parse_not_expr
not-Uses f = prefix_level-Uses _ _ (parse_comparison_expr-Uses (parse_expression-Uses f))

and-Uses : (f : ℕ) → Uses 1 (suc f) (parse_and_expr (parse_expression f))
unfolding parse_and_expr
and-Uses f = binary_level-Uses _ _ (not-Uses f)

-- An operator between two written operands.
abbrev between : BinaryOp → ℕ → Writer → ℕ → Writer → Writer
between op i wa j wb r =
    operand (left_rank op) i wa (word (binary_type op) ∷ operand (right_rank op) j wb r)

module _ {i j : ℕ} {wa wb : Writer} {a b : Expr} (ra : AllReads i wa a) (rb : AllReads j wb b) where
  between-Grows : (op : BinaryOp) → Grows (between op i wa j wb)
  between-Grows op r =
      let right = operand-Grows (right_rank op) j wb rb.grows r in
      let left =
        operand-Grows (left_rank op) i wa ra.grows
          (word (binary_type op) ∷ operand (right_rank op) j wb r) in
      omega arith

  between-no_not : (op : BinaryOp) → 4 ≤ left_rank op → NoPrefix not_ops (between op i wa j wb)
  between-no_not op le r =
      operand-NoPrefix (left_rank op) i wa le ra.no_not
        (word (binary_type op) ∷ operand (right_rank op) j wb r)

  sum-reads :
      (op : BinaryOp)
      → left_rank op ≡ 5
      → right_rank op ≡ 6
      → additive_ops (binary_type op) ≡ some op
      → tightness (binary_type op) ≡ 5
      → AllReads 5 (between op i wa j wb) (binary op a b)
  sum-reads op l r found t =
      let le : 4 ≤ left_rank op = omega (arith, l) in
      from_sums (between-Grows op) (between-no_not op le) (
        Chain-step op (binary_type op) products-Uses found t (operand-Grows _ i wa ra.grows)
          (operand-Grows _ j wb rb.grows)
          (subst (λ n. Chain additive_ops parse_multiplicative_expr 5 (operand n i wa) a) (sym l)
            ra.sums)
          (subst (λ n. At parse_multiplicative_expr 6 (operand n j wb) b) (sym r)
            (At-products rb.products)))

  product-reads :
      (op : BinaryOp)
      → left_rank op ≡ 6
      → right_rank op ≡ 7
      → multiplicative_ops (binary_type op) ≡ some op
      → tightness (binary_type op) ≡ 6
      → AllReads 6 (between op i wa j wb) (binary op a b)
  product-reads op l r found t =
      let le : 4 ≤ left_rank op = omega (arith, l) in
      from_products (between-Grows op) (between-no_not op le) (
        Chain-step op (binary_type op) unary-Uses found t (operand-Grows _ i wa ra.grows)
          (operand-Grows _ j wb rb.grows)
          (subst (λ n. Chain multiplicative_ops parse_unary_expr 6 (operand n i wa) a) (sym l)
            ra.products)
          (subst (λ n. At parse_unary_expr 7 (operand n j wb) b) (sym r) rb.unary))

  comparison-reads :
      (op : BinaryOp)
      → left_rank op ≡ 5
      → right_rank op ≡ 5
      → comparison_ops (binary_type op) ≡ some op
      → tightness (binary_type op) ≡ 4
      → AllReads 4 (between op i wa j wb) (binary op a b)
  comparison-reads op l r found t =
      let le : 4 ≤ left_rank op = omega (arith, l) in
      from_comparison (between-Grows op) (between-no_not op le) (
        comparison-At (operand (left_rank op) i wa) (operand (right_rank op) j wb) a b
          (binary_type op) op found t (operand-Grows _ i wa ra.grows)
          (subst (λ n. Chain additive_ops parse_multiplicative_expr 5 (operand n i wa) a) (sym l)
            ra.sums)
          (subst (λ n. Chain additive_ops parse_multiplicative_expr 5 (operand n j wb) b) (sym r)
            rb.sums))

  pub binary-reads :
      (op : BinaryOp)
      → IsParsedOp op
      → AllReads (binary_rank op) (between op i wa j wb) (binary op a b)
  unfolding tightness or_ops and_ops comparison_ops additive_ops multiplicative_ops
  binary-reads or_op h = from_disjunction (between-Grows or_op) (
      Chain-step or_op TokenType.or_kw and-Uses refl refl (operand-Grows 1 i wa ra.grows)
        (operand-Grows 2 j wb rb.grows) ra.disjunction (At-conjunction rb.conjunction))
  binary-reads and_op h = from_conjunction (between-Grows and_op) (
      Chain-step and_op TokenType.and_kw not-Uses refl refl (operand-Grows 2 i wa ra.grows)
        (operand-Grows 3 j wb rb.grows) ra.conjunction rb.negation)
  binary-reads eq_op h = comparison-reads eq_op refl refl refl refl
  binary-reads ne_op h = comparison-reads ne_op refl refl refl refl
  binary-reads bang_eq_op h = absurd h
  binary-reads lt_op h = comparison-reads lt_op refl refl refl refl
  binary-reads gt_op h = comparison-reads gt_op refl refl refl refl
  binary-reads le_op h = comparison-reads le_op refl refl refl refl
  binary-reads ge_op h = comparison-reads ge_op refl refl refl refl
  binary-reads add_op h = sum-reads add_op refl refl refl refl
  binary-reads sub_op h = sum-reads sub_op refl refl refl refl
  binary-reads concat_op h = sum-reads concat_op refl refl refl refl
  binary-reads mul_op h = product-reads mul_op refl refl refl refl
  binary-reads div_op h = product-reads div_op refl refl refl refl
  binary-reads mod_op h = product-reads mod_op refl refl refl refl
