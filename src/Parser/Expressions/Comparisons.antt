-- ===== src/Parser/Expressions/Comparisons.antt =====
-- Signs, NOT, comparisons and the forms behind an operand: what their levels of src/parser/parser.cpp read
-- of them.
use seeddb.Base.{ℕ, ◌≤◌, ◌<◌, Bool, true, false, ◌∷◌, Option, none, some, length, ◌≡◌, refl, arith}
use seeddb.Parser.Token.{TokenType}
use seeddb.Parser.Ast.{
  Expr, binary, unary, is_null_expr, between_expr, like_expr, in_expr, BinaryOp, UnaryOp, not_op,
  Exprs, no_exprs, more_exprs,
}
use seeddb.Parser.Stream.{Tokens, ok, P, and_then, take_op}
use seeddb.Parser.Expressions.Primary.{to_exprs, parse_primary_expr}
use seeddb.Parser.Expressions.Loops.{
  prefix_loop, prefix_level, comparison_ops, additive_ops, not_ops, sign_ops,
}
use seeddb.Parser.Expressions.{
  parse_unary_expr, parse_multiplicative_expr, parse_additive_expr, parse_comparison_expr,
  comparison_tail, postfix_tail, parse_not_expr, parse_expression, parse_between_expr,
  parse_in_expr,
}
use seeddb.Parser.Expressions.Writer.{Writer, word, word_if, write_list, IsList}
use seeddb.Parser.Expressions.Levels.{At, Chain, bound, tightness, At-sums, no_postfix}
use seeddb.Parser.Expressions.Operators.{Grows, take_op-found}
use seeddb.Parser.Expressions.Primaries.{AllWhole, of_exprs, to_exprs-of_exprs, comma_list-write}

prefix_step :
    (ops : TokenType → Option UnaryOp) (sub : P Expr → P Expr) (k : ℕ) (w : Writer) (e : Expr)
    (t : TokenType) (op : UnaryOp)
    → ops t ≡ some op
    → At (λ px. prefix_level ops (sub px)) k w e
    → At (λ px. prefix_level ops (sub px)) k (λ r. word t ∷ w r) (unary op e)
unfolding prefix_level prefix_loop
prefix_step ops sub k w e t op found a = record {
  reads = λ f r l lt.
      rw (take_op-found ops t op (w r) found, prefix_loop) (rw (a.reads f r (omega arith) lt) refl);
}

pub sign-At :
    (w : Writer) (e : Expr) (t : TokenType) (op : UnaryOp)
    → sign_ops t ≡ some op
    → At parse_unary_expr 7 w e
    → At parse_unary_expr 7 (λ r. word t ∷ w r) (unary op e)
unfolding parse_unary_expr
sign-At w e t op found a = prefix_step sign_ops parse_primary_expr 7 w e t op found a

pub not-At :
    (w : Writer) (e : Expr)
    → At parse_not_expr 3 w e
    → At parse_not_expr 3 (λ r. word TokenType.not_kw ∷ w r) (unary not_op e)
unfolding parse_not_expr not_ops
not-At w e a = prefix_step not_ops parse_comparison_expr 3 w e TokenType.not_kw not_op refl a

comparison_found :
    (px : P Expr) (a : Expr) (t : TokenType) (op : BinaryOp) (ts : Tokens)
    → comparison_ops t ≡ some op
    → comparison_tail px a (word t ∷ ts)
      ≡ and_then (parse_additive_expr px ts) (λ right r. ok (binary op a right) r)
unfolding comparison_tail
comparison_found px a t op ts h = rw (take_op-found comparison_ops t op ts h, comparison_tail) refl

abbrev Sum : Writer → Expr → Type 0
Sum = Chain additive_ops parse_multiplicative_expr 5

pub comparison-At :
    (wa wb : Writer) (a b : Expr) (t : TokenType) (op : BinaryOp)
    → comparison_ops t ≡ some op
    → tightness t ≡ 4
    → Grows wa
    → Sum wa a
    → Sum wb b
    → At parse_comparison_expr 4 (λ r. wa (word t ∷ wb r)) (binary op a b)
unfolding parse_comparison_expr
comparison-At wa wb a b t op found rank g ca cb = record {
  reads = λ f r l lt.
      let grown = g (word t ∷ wb r) in
      rw
        (
          (At-sums ca).reads f (word t ∷ wb r) l (omega (arith, rank)),
          comparison_found (parse_expression f) a t op (wb r) found,
          (At-sums cb).reads f r (omega arith) (omega arith),
          no_postfix (parse_expression f) (binary op a b) r lt,
        )
        refl;
}

-- A form behind an operand that is no comparison.
postfix_step :
    (wa wt : Writer) (a e : Expr) (t : TokenType)
    → comparison_ops t ≡ none
    → tightness t ≡ 4
    → Grows wa
    → Sum wa a
    → ((f : ℕ) (r : Tokens)
        → length (wt r) < f
        → bound r < 4
        → postfix_tail (parse_expression f) a (word t ∷ wt r) ≡ ok e r)
    → At parse_comparison_expr 4 (λ r. wa (word t ∷ wt r)) e
unfolding parse_comparison_expr comparison_tail take_op
postfix_step wa wt a e t missing rank g ca post = record {
  reads = λ f r l lt.
      let grown = g (word t ∷ wt r) in
      rw ((At-sums ca).reads f (word t ∷ wt r) l (omega (arith, rank)), missing)
        (post f r (omega arith) lt);
}

between_reads :
    (low high : Expr) (wl wh : Writer) (a : Expr) (negated : Bool)
    → Grows wl
    → Sum wl low
    → Sum wh high
    → (f : ℕ) (r : Tokens) → length (wl (word TokenType.and_kw ∷ wh r)) ≤ f
    → bound r < 4
    → parse_between_expr (parse_expression f) a negated (wl (word TokenType.and_kw ∷ wh r))
      ≡ ok (between_expr a low high negated) r
unfolding parse_between_expr tightness
between_reads low high wl wh a negated g cl ch f r l lt =
    let grown = g (word TokenType.and_kw ∷ wh r) in
    rw
      (
        (At-sums cl).reads f (word TokenType.and_kw ∷ wh r) l (omega arith),
        (At-sums ch).reads f r (omega arith) (omega arith),
      )
      refl

in_reads :
    (es : Exprs) (hs : AllWhole es) (n : IsList es) (a : Expr) (negated : Bool) (f : ℕ) (r : Tokens)
    → length (write_list es (word TokenType.rparen ∷ r)) < f
    → parse_in_expr
        (parse_expression f)
        a
        negated
        (word TokenType.lparen ∷ write_list es (word TokenType.rparen ∷ r))
      ≡ ok (in_expr a es negated) r
unfolding parse_in_expr write_list to_exprs of_exprs
in_reads no_exprs hs n a negated f r l = absurd n
in_reads (more_exprs e es) (h, hs) n a negated f r l =
    rw (comma_list-write f e es r h hs l, to_exprs-of_exprs es) refl

module _ (wa : Writer) (a : Expr) (g : Grows wa) (ca : Sum wa a) where
  pub is_null-At :
      (negated : Bool)
      → At parse_comparison_expr 4
          (λ r.
            wa (
              word TokenType.is_kw
              ∷ word_if TokenType.not_kw negated (word TokenType.null_lit ∷ r)))
          (is_null_expr a negated)
  unfolding postfix_tail comparison_ops tightness
  is_null-At true = postfix_step wa _ a _ TokenType.is_kw refl refl g ca (λ f r l lt. refl)
  is_null-At false = postfix_step wa _ a _ TokenType.is_kw refl refl g ca (λ f r l lt. refl)

  pub between-At :
      (low high : Expr) (wl wh : Writer) (negated : Bool)
      → Grows wl
      → Sum wl low
      → Sum wh high
      → At parse_comparison_expr 4
          (λ r. wa (
            word_if TokenType.not_kw negated
              (word TokenType.between_kw ∷ wl (word TokenType.and_kw ∷ wh r))))
          (between_expr a low high negated)
  unfolding postfix_tail comparison_ops tightness
  between-At low high wl wh true gl cl ch =
      postfix_step wa (λ r. word TokenType.between_kw ∷ wl (word TokenType.and_kw ∷ wh r)) a _
        TokenType.not_kw refl refl g ca
        (λ f r l lt. between_reads low high wl wh a true gl cl ch f r (omega arith) lt)
  between-At low high wl wh false gl cl ch =
      postfix_step wa (λ r. wl (word TokenType.and_kw ∷ wh r)) a _ TokenType.between_kw refl refl g
        ca (λ f r l lt. between_reads low high wl wh a false gl cl ch f r (omega arith) lt)

  pub like-At :
      (e : Expr) (we : Writer) (negated : Bool)
      → At parse_primary_expr 8 we e
      → At parse_comparison_expr 4
          (λ r. wa (word_if TokenType.not_kw negated (word TokenType.like_kw ∷ we r)))
          (like_expr a e negated)
  unfolding postfix_tail comparison_ops tightness
  like-At e we true p =
      postfix_step wa (λ r. word TokenType.like_kw ∷ we r) a _ TokenType.not_kw refl refl g ca
        (λ f r l lt. rw (p.reads f r (omega arith) (omega arith)) refl)
  like-At e we false p =
      postfix_step wa we a _ TokenType.like_kw refl refl g ca
        (λ f r l lt. rw (p.reads f r (omega arith) (omega arith)) refl)

  pub in-At :
      (es : Exprs) (negated : Bool)
      → AllWhole es
      → IsList es
      → At parse_comparison_expr 4
          (λ r. wa (
            word_if TokenType.not_kw negated (
              word TokenType.in_kw
              ∷ word TokenType.lparen
              ∷ write_list es (word TokenType.rparen ∷ r))))
          (in_expr a es negated)
  unfolding postfix_tail comparison_ops tightness
  in-At es true hs n =
      postfix_step wa
        (λ r.
          word TokenType.in_kw ∷ word TokenType.lparen ∷ write_list es (word TokenType.rparen ∷ r))
        a _ TokenType.not_kw refl refl g ca (λ f r l lt. in_reads es hs n a true f r (omega arith))
  in-At es false hs n =
      postfix_step wa (λ r. word TokenType.lparen ∷ write_list es (word TokenType.rparen ∷ r)) a _
        TokenType.in_kw refl refl g ca (λ f r l lt. in_reads es hs n a false f r (omega arith))
