-- ===== src/Parser/Expressions/RoundTrip.antt =====
-- The expression parser of src/parser/parser.cpp reads back every expression that was written with the
-- brackets that precedence needs.
use seeddb.Base.{Bytes, ℕ, ◌≤◌, ◌<◌, Bool, true, false, [], ◌∷◌, length, ◌≡◌, refl, arith}
use seeddb.Parser.Token.{
  TokenType, TokenValue, no_value, int_value, float_value, string_value, bool_value,
}
use seeddb.Parser.Ast.{
  Expr, literal, column_ref, binary, unary, is_null_expr, aggregate, case_expr, in_expr,
  between_expr, like_expr, coalesce, nullif, function_call, OptExpr, no_expr, an_expr, Exprs,
  no_exprs, more_exprs, Whens, no_whens, more_whens, UnaryOp, not_op, neg_op, plus_op,
  AggregateType, count, sum, avg, min, max,
}
use seeddb.Parser.Stream.{Tokens, ok, take_op}
use seeddb.Parser.Expressions.{parse_expression}
use seeddb.Parser.Expressions.Loops.{not_ops, sign_ops}
use seeddb.Parser.Expressions.Writer.{
  Writer, word, operand, rank, write, write_list, write_more, write_argument, write_else, word_if,
  IsWritable, IsArgument, IsWritableOpt, AreWritable, AreWritableWhens, IsStar, unary_type,
  unary_rank, aggregate_type,
}
use seeddb.Parser.Expressions.Levels.{NoPrefix, bound}
use seeddb.Parser.Expressions.Operators.{Grows}
use seeddb.Parser.Expressions.Ranks.{
  AllReads, operand-Grows, operand-NoPrefix, parse_expression-whole, from_primary, from_negation,
  from_comparison, from_unary,
}
use seeddb.Parser.Expressions.Aggregates.{word_if-le, aggregate-At, star-At}
use seeddb.Parser.Expressions.Primaries.{
  write_more-Grows, Whole, AllWhole, OptWhole, WhensWhole, literal-At, column_ref-At, coalesce-At,
  call-At, nullif-At,
}
use seeddb.Parser.Expressions.Cases.{whens-Grows, case-At}
use seeddb.Parser.Expressions.Comparisons.{sign-At, not-At, is_null-At, between-At, like-At, in-At}
use seeddb.Parser.Expressions.Binary.{binary-reads}

-- The operand in front of a form such as IS NULL or BETWEEN.
module _ {i : ℕ} {wa : Writer} {a : Expr} (ra : AllReads i wa a) where
  behind-Grows :
      (w : Writer) → ((r : Tokens) → length r ≤ length (w r)) → Grows (λ r. operand 5 i wa (w r))
  behind-Grows w h r =
      let left = operand-Grows 5 i wa ra.grows (w r) in let right = h r in omega arith

  behind-no_not : (w : Writer) → NoPrefix not_ops (λ r. operand 5 i wa (w r))
  behind-no_not w r = operand-NoPrefix 5 i wa (omega arith) ra.no_not (w r)

to_whole : {i : ℕ} {e : Expr} → AllReads i (write e) e → Whole e
to_whole r = record { chain = r.whole; grows = r.grows }

write_list-le : (es : Exprs) (r : Tokens) → AllWhole es → length r ≤ length (write_list es r)
unfolding write_list
write_list-le no_exprs r h = omega arith
write_list-le (more_exprs e es) r (h, hs) =
    let grown = h.grows (write_more es r) in omega (arith, write_more-Grows es r hs)

write_else-le : (els : OptExpr) (r : Tokens) → OptWhole els → length r ≤ length (write_else els r)
unfolding write_else
write_else-le no_expr r h = omega arith
write_else-le (an_expr e) r h = let grown = h.grows r in omega arith

unary-reads :
    {i : ℕ} {w : Writer} {e : Expr} (op : UnaryOp)
    → AllReads i w e
    → AllReads
        (rank (unary op e))
        (λ r. word (unary_type op) ∷ operand (unary_rank op) i w r)
        (unary op e)
unfolding sign_ops not_ops take_op
unary-reads {i} {w} {e} not_op h =
    from_negation (λ r. let g = operand-Grows 3 i w h.grows r in omega arith)
      (not-At (operand 3 i w) e h.negation)
unary-reads {i} {w} {e} neg_op h =
    from_unary (λ r. let g = operand-Grows 7 i w h.grows r in omega arith) (λ r. refl)
      (sign-At (operand 7 i w) e TokenType.minus neg_op refl h.unary)
unary-reads {i} {w} {e} plus_op h =
    from_unary (λ r. let g = operand-Grows 7 i w h.grows r in omega arith) (λ r. refl)
      (sign-At (operand 7 i w) e TokenType.plus plus_op refl h.unary)

literal-reads : (v : TokenValue) → AllReads 8 (write (literal v)) (literal v)
unfolding write sign_ops not_ops take_op
literal-reads no_value =
    from_primary (literal-At no_value) (λ r. refl) (λ r. refl) (λ r. omega arith)
literal-reads (int_value v) =
    from_primary (literal-At (int_value v)) (λ r. refl) (λ r. refl) (λ r. omega arith)
literal-reads (float_value v) =
    from_primary (literal-At (float_value v)) (λ r. refl) (λ r. refl) (λ r. omega arith)
literal-reads (string_value s) =
    from_primary (literal-At (string_value s)) (λ r. refl) (λ r. refl) (λ r. omega arith)
literal-reads (bool_value true) =
    from_primary (literal-At (bool_value true)) (λ r. refl) (λ r. refl) (λ r. omega arith)
literal-reads (bool_value false) =
    from_primary (literal-At (bool_value false)) (λ r. refl) (λ r. refl) (λ r. omega arith)

column_ref-reads :
    (table column : Bytes) → AllReads 8 (write (column_ref table column)) (column_ref table column)
unfolding write sign_ops not_ops take_op
column_ref-reads [] column =
    from_primary (column_ref-At [] column) (λ r. refl) (λ r. refl) (λ r. omega arith)
column_ref-reads (c ∷ cs) column =
    from_primary (column_ref-At (c ∷ cs) column) (λ r. refl) (λ r. refl) (λ r. omega arith)

star-reads :
    (type : AggregateType) (star distinct : Bool)
    → IsStar type star distinct
    → AllReads 8
        (write (aggregate type no_expr star distinct))
        (aggregate type no_expr star distinct)
unfolding write write_argument sign_ops not_ops take_op
star-reads count true false h = from_primary star-At (λ r. refl) (λ r. refl) (λ r. omega arith)
star-reads count true true h = absurd h
star-reads count false distinct h = absurd h
star-reads sum star distinct h = absurd h
star-reads avg star distinct h = absurd h
star-reads min star distinct h = absurd h
star-reads max star distinct h = absurd h

aggregate-no_sign :
    (type : AggregateType) (w : Writer) → NoPrefix sign_ops (λ r. word (aggregate_type type) ∷ w r)
unfolding sign_ops take_op
aggregate-no_sign count w r = refl
aggregate-no_sign sum w r = refl
aggregate-no_sign avg w r = refl
aggregate-no_sign min w r = refl
aggregate-no_sign max w r = refl

aggregate-no_not :
    (type : AggregateType) (w : Writer) → NoPrefix not_ops (λ r. word (aggregate_type type) ∷ w r)
unfolding not_ops take_op
aggregate-no_not count w r = refl
aggregate-no_not sum w r = refl
aggregate-no_not avg w r = refl
aggregate-no_not min w r = refl
aggregate-no_not max w r = refl

aggregate-reads :
    (type : AggregateType) (distinct : Bool) (e : Expr)
    → Whole e
    → AllReads 8
        (write (aggregate type (an_expr e) false distinct))
        (aggregate type (an_expr e) false distinct)
unfolding write write_argument
aggregate-reads type distinct e h =
    from_primary (aggregate-At type distinct e h)
      (aggregate-no_sign type (λ r.
        word TokenType.lparen
        ∷ word_if TokenType.distinct_kw distinct (write e (word TokenType.rparen ∷ r))))
      (aggregate-no_not type (λ r.
        word TokenType.lparen
        ∷ word_if TokenType.distinct_kw distinct (write e (word TokenType.rparen ∷ r))))
      (λ r.
        let inner = h.grows (word TokenType.rparen ∷ r) in
        let outer =
          word_if-le TokenType.distinct_kw distinct (write e (word TokenType.rparen ∷ r)) in
        omega arith)

mutual
  unfolding write write_argument write_else take_op sign_ops not_ops IsWritable

  reads : (e : Expr) → IsWritable e → AllReads (rank e) (write e) e
  reads (literal v) h = literal-reads v
  reads (column_ref table column) h = column_ref-reads table column
  reads (binary op a b) (p, ha, hb) = binary-reads (reads a ha) (reads b hb) op p
  reads (unary op e) h = unary-reads op (reads e h)
  reads (is_null_expr e negated) h =
      let r = reads e h in
      let w : Writer = λ s.
        word TokenType.is_kw ∷ word_if TokenType.not_kw negated (word TokenType.null_lit ∷ s) in
      from_comparison
        (behind-Grows r w (λ s.
          let le = word_if-le TokenType.not_kw negated (word TokenType.null_lit ∷ s) in
          omega arith))
        (behind-no_not r w)
        (is_null-At (operand 5 (rank e) (write e)) e (operand-Grows 5 (rank e) (write e) r.grows)
          r.sums negated)
  reads (aggregate type arg star distinct) h = argument-reads type arg star distinct h
  reads (case_expr whens els) (hs, h) =
      let ws = whens-reads whens hs in
      let o = opt-reads els h in
      from_primary (case-At whens els ws o) (λ s. refl) (λ s. refl)
        (λ s.
          let le = whens-Grows whens (write_else els (word TokenType.end_kw ∷ s)) ws in
          let le' = write_else-le els (word TokenType.end_kw ∷ s) o in omega arith)
  reads (in_expr e values negated) (h, n, hs) =
      let r = reads e h in
      let vs = list-reads values hs in
      let w : Writer = λ s. word_if TokenType.not_kw negated (
        word TokenType.in_kw
        ∷ word TokenType.lparen
        ∷ write_list values (word TokenType.rparen ∷ s)) in
      from_comparison
        (behind-Grows r w (λ s.
          let le = word_if-le TokenType.not_kw negated (
            word TokenType.in_kw
            ∷ word TokenType.lparen
            ∷ write_list values (word TokenType.rparen ∷ s)) in
          let le' = write_list-le values (word TokenType.rparen ∷ s) vs in omega arith))
        (behind-no_not r w)
        (in-At (operand 5 (rank e) (write e)) e (operand-Grows 5 (rank e) (write e) r.grows) r.sums
          values negated vs n)
  reads (between_expr e low high negated) (h, hl, hh) =
      let r = reads e h in
      let rl = reads low hl in
      let rh = reads high hh in
      let wl = operand 5 (rank low) (write low) in
      let wh = operand 5 (rank high) (write high) in
      let gl = operand-Grows 5 (rank low) (write low) rl.grows in
      let gh = operand-Grows 5 (rank high) (write high) rh.grows in
      let w : Writer = λ s.
        word_if TokenType.not_kw negated
          (word TokenType.between_kw ∷ wl (word TokenType.and_kw ∷ wh s)) in
      from_comparison
        (behind-Grows r w (λ s.
          let le =
            word_if-le TokenType.not_kw negated
              (word TokenType.between_kw ∷ wl (word TokenType.and_kw ∷ wh s)) in
          let le' = gl (word TokenType.and_kw ∷ wh s) in let le'' = gh s in omega arith))
        (behind-no_not r w)
        (between-At (operand 5 (rank e) (write e)) e (operand-Grows 5 (rank e) (write e) r.grows)
          r.sums low high wl wh negated gl rl.sums rh.sums)
  reads (like_expr e pattern_expr negated) (h, hp) =
      let r = reads e h in
      let rp = reads pattern_expr hp in
      let wp = operand 8 (rank pattern_expr) (write pattern_expr) in
      let gp = operand-Grows 8 (rank pattern_expr) (write pattern_expr) rp.grows in
      let w : Writer = λ s. word_if TokenType.not_kw negated (word TokenType.like_kw ∷ wp s) in
      from_comparison
        (behind-Grows r w (λ s.
          let le = word_if-le TokenType.not_kw negated (word TokenType.like_kw ∷ wp s) in
          let le' = gp s in omega arith))
        (behind-no_not r w)
        (like-At (operand 5 (rank e) (write e)) e (operand-Grows 5 (rank e) (write e) r.grows)
          r.sums pattern_expr wp negated rp.primary)
  reads (coalesce args) (n, hs) =
      let vs = list-reads args hs in
      from_primary (coalesce-At args vs n) (λ s. refl) (λ s. refl)
        (λ s. let le = write_list-le args (word TokenType.rparen ∷ s) vs in omega arith)
  reads (nullif a b) (ha, hb) =
      let ra = to_whole (reads a ha) in
      let rb = to_whole (reads b hb) in
      from_primary (nullif-At a b ra rb) (λ s. refl) (λ s. refl)
        (λ s.
          let le = ra.grows (word TokenType.comma ∷ write b (word TokenType.rparen ∷ s)) in
          let le' = rb.grows (word TokenType.rparen ∷ s) in omega arith)
  reads (function_call name args) hs =
      let vs = list-reads args hs in
      from_primary (call-At args vs name) (λ s. refl) (λ s. refl)
        (λ s. let le = write_list-le args (word TokenType.rparen ∷ s) vs in omega arith)

  argument-reads :
      (type : AggregateType) (arg : OptExpr) (star distinct : Bool)
      → IsArgument type arg star distinct
      → AllReads 8 (write (aggregate type arg star distinct)) (aggregate type arg star distinct)
  argument-reads type no_expr star distinct h = star-reads type star distinct h
  argument-reads type (an_expr e) true distinct (s, h) = cc
  argument-reads type (an_expr e) false distinct (s, h) =
      aggregate-reads type distinct e (to_whole (reads e h))

  opt-reads : (o : OptExpr) → IsWritableOpt o → OptWhole o
  opt-reads no_expr h = tt
  opt-reads (an_expr e) h = to_whole (reads e h)

  list-reads : (es : Exprs) → AreWritable es → AllWhole es
  list-reads no_exprs h = tt
  list-reads (more_exprs e es) (h, hs) = (to_whole (reads e h), list-reads es hs)

  whens-reads : (ws : Whens) → AreWritableWhens ws → WhensWhole ws
  whens-reads no_whens h = tt
  whens-reads (more_whens c e ws) (hc, he, hs) =
      (to_whole (reads c hc), to_whole (reads e he), whens-reads ws hs)

-- With fuel for its tokens, the parser reads the written expression and leaves what follows, if that
-- does not start with a token that goes on with an expression. The expression is any that the parser
-- can give, written with brackets only around operands that bind less tightly than their place asks
-- for.
pub parse_expression-write :
    (e : Expr) (f : ℕ) (r : Tokens)
    → IsWritable e
    → length (write e r) < f
    → bound r < 1
    → parse_expression f (write e r) ≡ ok e r
parse_expression-write e f r h l lt = parse_expression-whole (reads e h).whole f r l lt
