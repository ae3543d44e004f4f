-- ===== src/Parser/Expressions/Primaries.antt =====
-- Literals, names and calls: what `parsePrimaryExpr` of src/parser/parser.cpp reads of
-- them.
use seeddb.Base.{
  ℕ, zero, suc, ◌≤◌, ◌<◌, true, false, List, [], ◌∷◌, Bytes, length, ◌≡◌, refl, arith,
}
use seeddb.Parser.Token.{
  TokenType, TokenValue, no_value, int_value, float_value, string_value, bool_value,
}
use seeddb.Parser.Ast.{
  Expr, literal, column_ref, coalesce, nullif, function_call, OptExpr, no_expr, an_expr, Exprs,
  no_exprs, more_exprs, Whens, no_whens, more_whens,
}
use seeddb.Parser.Stream.{Tokens, ok, comma_loop, comma_list}
use seeddb.Parser.Expressions.Primary.{to_exprs, parse_primary_expr}
use seeddb.Parser.Expressions.{parse_and_expr, parse_expression}
use seeddb.Parser.Expressions.Loops.{or_ops}
use seeddb.Parser.Expressions.Writer.{
  word, name_token, literal_token, column_tokens, write, write_list, write_more, IsList,
}
use seeddb.Parser.Expressions.Levels.{At, Chain, bound, tightness}
use seeddb.Parser.Expressions.Operators.{Grows}
use seeddb.Parser.Expressions.Ranks.{parse_expression-whole}
use seeddb.Parser.Expressions.Starts.{write-Starts, check-rparen, accept-open, accept-dot}

-- The parser reads the written expression as a whole.
pub record Whole (e : Expr) : Type 0 where
  pub chain : Chain or_ops parse_and_expr 1 (write e) e
  pub grows : Grows (write e)

abbrev pub AllWhole : Exprs → Type 0
AllWhole no_exprs = Unit
AllWhole (more_exprs e es) = Whole e × AllWhole es

abbrev pub OptWhole : OptExpr → Type 0
OptWhole no_expr = Unit
OptWhole (an_expr e) = Whole e

abbrev pub WhensWhole : Whens → Type 0
WhensWhole no_whens = Unit
WhensWhole (more_whens c e ws) = Whole c × Whole e × WhensWhole ws

pub whole :
    {e : Expr}
    → Whole e
    → (f : ℕ) (r : Tokens) → length (write e r) < f
    → bound r < 1
    → parse_expression f (write e r) ≡ ok e r
whole h f r l lt = parse_expression-whole h.chain f r l lt

unfoldable pub of_exprs : Exprs → List Expr
of_exprs no_exprs = []
of_exprs (more_exprs e es) = e ∷ of_exprs es

pub to_exprs-of_exprs : (es : Exprs) → to_exprs (of_exprs es) ≡ es
unfolding to_exprs of_exprs
to_exprs-of_exprs no_exprs = refl
to_exprs-of_exprs (more_exprs e es) = rw (to_exprs-of_exprs es) refl

pub write_more-Grows : (es : Exprs) (r : Tokens) → AllWhole es → length r ≤ length (write_more es r)
unfolding write_more
write_more-Grows no_exprs r h = omega arith
write_more-Grows (more_exprs e es) r (h, hs) =
    let grown = h.grows (write_more es r) in omega (arith, write_more-Grows es r hs)

-- The loop over a written list.
comma_loop-write :
    (f n : ℕ) (e : Expr) (es : Exprs) (r : Tokens)
    → Whole e
    → AllWhole es
    → length (write e (write_more es (word TokenType.rparen ∷ r))) < f
    → length (write e (write_more es (word TokenType.rparen ∷ r))) < n
    → comma_loop (parse_expression f) n (write e (write_more es (word TokenType.rparen ∷ r)))
      ≡ ok (e ∷ of_exprs es) (word TokenType.rparen ∷ r)
unfolding comma_loop write_more of_exprs tightness
comma_loop-write f zero e es r h hs lf ln = absurd (omega arith)
comma_loop-write f (suc n) e no_exprs r h hs lf ln =
    rw (whole h f (word TokenType.rparen ∷ r) lf (omega arith)) refl
comma_loop-write f (suc n) e (more_exprs d ds) r h (k, ks) lf ln =
    let rest = write d (write_more ds (word TokenType.rparen ∷ r)) in
    let grown = h.grows (word TokenType.comma ∷ rest) in
    rw
      (
        whole h f (word TokenType.comma ∷ rest) lf (omega arith),
        comma_loop-write f n d ds r k ks (omega arith) (omega arith),
      )
      refl

pub comma_list-write :
    (f : ℕ) (e : Expr) (es : Exprs) (r : Tokens)
    → Whole e
    → AllWhole es
    → length (write e (write_more es (word TokenType.rparen ∷ r))) < f
    → comma_list (parse_expression f) (write e (write_more es (word TokenType.rparen ∷ r)))
      ≡ ok (e ∷ of_exprs es) (word TokenType.rparen ∷ r)
unfolding comma_list
comma_list-write f e es r h hs l =
    comma_loop-write f (suc (length (write e (write_more es (word TokenType.rparen ∷ r))))) e es r h
      hs l (omega arith)

pub literal-At : (v : TokenValue) → At parse_primary_expr 8 (λ r. literal_token v ∷ r) (literal v)
unfolding parse_primary_expr
literal-At no_value = record { reads = λ f r l lt. refl }
literal-At (int_value v) = record { reads = λ f r l lt. refl }
literal-At (float_value v) = record { reads = λ f r l lt. refl }
literal-At (string_value s) = record { reads = λ f r l lt. refl }
literal-At (bool_value true) = record { reads = λ f r l lt. refl }
literal-At (bool_value false) = record { reads = λ f r l lt. refl }

pub column_ref-At :
    (table column : Bytes)
    → At parse_primary_expr 8 (column_tokens table column) (column_ref table column)
unfolding parse_primary_expr
column_ref-At [] column = record { reads = λ f r l lt. rw (accept-open r lt, accept-dot r lt) refl }
column_ref-At (c ∷ cs) column = record { reads = λ f r l lt. refl }

coalesce_reads :
    (es : Exprs) (hs : AllWhole es) (n : IsList es) (f : ℕ) (r : Tokens)
    → suc (suc (length (write_list es (word TokenType.rparen ∷ r)))) ≤ f
    → parse_primary_expr (parse_expression f) (
        word TokenType.coalesce_kw
        ∷ word TokenType.lparen
        ∷ write_list es (word TokenType.rparen ∷ r))
      ≡ ok (coalesce es) r
unfolding parse_primary_expr write_list to_exprs of_exprs
coalesce_reads no_exprs hs n f r l = absurd n
coalesce_reads (more_exprs e es) (h, hs) n f r l =
    rw (comma_list-write f e es r h hs (omega arith), to_exprs-of_exprs es) refl

call_reads :
    (es : Exprs) (hs : AllWhole es) (name : Bytes) (f : ℕ) (r : Tokens)
    → suc (suc (length (write_list es (word TokenType.rparen ∷ r)))) ≤ f
    → parse_primary_expr
        (parse_expression f)
        (name_token name ∷ word TokenType.lparen ∷ write_list es (word TokenType.rparen ∷ r))
      ≡ ok (function_call name es) r
unfolding parse_primary_expr write_list to_exprs of_exprs
call_reads no_exprs hs name f r l = refl
call_reads (more_exprs e es) (h, hs) name f r l =
    let ts = write e (write_more es (word TokenType.rparen ∷ r)) in
    rw
      (
        check-rparen ts (write-Starts e (write_more es (word TokenType.rparen ∷ r))),
        comma_list-write f e es r h hs (omega arith),
        to_exprs-of_exprs es,
      )
      refl

module _ (es : Exprs) (hs : AllWhole es) where
  pub coalesce-At :
      IsList es
      → At parse_primary_expr 8
          (λ r.
            word TokenType.coalesce_kw
            ∷ word TokenType.lparen
            ∷ write_list es (word TokenType.rparen ∷ r))
          (coalesce es)
  coalesce-At n = record { reads = λ f r l lt. coalesce_reads es hs n f r l }

  pub call-At :
      (name : Bytes)
      → At parse_primary_expr 8
          (λ r. name_token name ∷ word TokenType.lparen ∷ write_list es (word TokenType.rparen ∷ r))
          (function_call name es)
  call-At name = record { reads = λ f r l lt. call_reads es hs name f r l }

pub nullif-At :
    (a b : Expr)
    → Whole a
    → Whole b
    → At parse_primary_expr 8
        (λ r.
          word TokenType.nullif_kw
          ∷ word TokenType.lparen
          ∷ write a (word TokenType.comma ∷ write b (word TokenType.rparen ∷ r)))
        (nullif a b)
unfolding parse_primary_expr tightness
nullif-At a b ha hb = record {
  reads = λ f r l lt.
      let grown = ha.grows (word TokenType.comma ∷ write b (word TokenType.rparen ∷ r)) in
      rw
        (
          whole ha f (word TokenType.comma ∷ write b (word TokenType.rparen ∷ r)) (omega arith)
              (omega arith),
          whole hb f (word TokenType.rparen ∷ r) (omega arith) (omega arith),
        )
        refl;
}
