-- ===== src/Parser/Expressions/Cases.antt =====
-- The parser of src/parser/parser.cpp reads back CASE as it is written.
use seeddb.Base.{ℕ, zero, suc, ◌≤◌, ◌<◌, false, ◌∷◌, length, ◌≡◌, refl, arith}
use seeddb.Parser.Token.{TokenType}
use seeddb.Parser.Ast.{case_expr, OptExpr, no_expr, an_expr, Whens, no_whens, more_whens}
use seeddb.Parser.Stream.{Tokens, ok, accept}
use seeddb.Parser.Expressions.Primary.{when_loop, optional_clause, parse_primary_expr}
use seeddb.Parser.Expressions.{parse_expression}
use seeddb.Parser.Expressions.Writer.{word, write, write_else, write_whens}
use seeddb.Parser.Expressions.Levels.{At, bound, tightness}
use seeddb.Parser.Expressions.Primaries.{OptWhole, WhensWhole, whole}

-- CASE: what stands behind the WHEN clauses is no WHEN, nor holds on to an expression.
case_end : OptExpr → Tokens → Tokens
case_end els r = write_else els (word TokenType.end_kw ∷ r)

case_end-when :
    (els : OptExpr) (r : Tokens)
    → accept TokenType.when_kw (case_end els r) ≡ ok false (case_end els r)
unfolding case_end write_else accept
case_end-when no_expr r = refl
case_end-when (an_expr e) r = refl

whens_bound :
    (ws : Whens) (els : OptExpr) (r : Tokens) → bound (write_whens ws (case_end els r)) < 1
unfolding case_end write_whens write_else tightness
whens_bound no_whens no_expr r = omega arith
whens_bound no_whens (an_expr e) r = omega arith
whens_bound (more_whens c e ws) els r = omega arith

when_loop-write :
    (f n : ℕ) (ws : Whens) (els : OptExpr) (r : Tokens)
    → WhensWhole ws
    → length (write_whens ws (case_end els r)) < f
    → length (write_whens ws (case_end els r)) < n
    → when_loop (parse_expression f) n (write_whens ws (case_end els r)) ≡ ok ws (case_end els r)
unfolding when_loop write_whens tightness
when_loop-write f zero ws els r h lf ln = absurd (omega arith)
when_loop-write f (suc n) no_whens els r h lf ln = rw (case_end-when els r) refl
when_loop-write f (suc n) (more_whens c e ws) els r (hc, he, hs) lf ln =
    let rest = write_whens ws (case_end els r) in
    let grown = hc.grows (word TokenType.then_kw ∷ write e (write_whens ws (case_end els r))) in
    let grown' = he.grows (write_whens ws (case_end els r)) in
    rw
      (
        whole hc f (word TokenType.then_kw ∷ write e (write_whens ws (case_end els r)))
            (omega arith) (omega arith),
        whole he f (write_whens ws (case_end els r)) (omega arith) (whens_bound ws els r),
        when_loop-write f n ws els r hs (omega arith) (omega arith),
      )
      refl

else-write :
    (f : ℕ) (els : OptExpr) (r : Tokens)
    → OptWhole els
    → length (case_end els r) < f
    → optional_clause TokenType.else_kw (parse_expression f) (case_end els r)
      ≡ ok els (word TokenType.end_kw ∷ r)
unfolding optional_clause case_end write_else tightness
else-write f no_expr r h l = refl
else-write f (an_expr e) r h l =
    rw (whole h f (word TokenType.end_kw ∷ r) (omega arith) (omega arith)) refl

pub whens-Grows : (ws : Whens) (r : Tokens) → WhensWhole ws → length r ≤ length (write_whens ws r)
unfolding write_whens
whens-Grows no_whens r h = omega arith
whens-Grows (more_whens c e ws) r (hc, he, hs) =
    let grown = hc.grows (word TokenType.then_kw ∷ write e (write_whens ws r)) in
    let grown' = he.grows (write_whens ws r) in omega (arith, whens-Grows ws r hs)

pub case-At :
    (ws : Whens) (els : OptExpr)
    → WhensWhole ws
    → OptWhole els
    → At parse_primary_expr 8
        (λ r. word TokenType.case_kw ∷ write_whens ws (write_else els (word TokenType.end_kw ∷ r)))
        (case_expr ws els)
unfolding parse_primary_expr case_end
case-At ws els hs h = record {
  reads = λ f r l lt.
      let grown = whens-Grows ws (case_end els r) hs in
      rw
        (
          when_loop-write f (suc (length (write_whens ws (case_end els r)))) ws els r hs
              (omega arith) (omega arith),
          else-write f els r h (omega arith),
        )
        refl;
}
