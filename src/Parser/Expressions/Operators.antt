-- ===== src/Parser/Expressions/Operators.antt =====
-- Operators of src/parser/parser.cpp with operands that their levels read.
use seeddb.Base.{
  ℕ, zero, suc, ◌<◌, ◌∷◌, Option, some, length, ◌≡◌, refl, ◌∙◌, arith, Option-cases, inl, inr,
}
use seeddb.Parser.Token.{TokenType}
use seeddb.Parser.Ast.{Expr, binary, BinaryOp}
use seeddb.Parser.Stream.{Tokens, Parsed, ok, syntax_error, no_fuel, P, and_then, take_op}
use seeddb.Parser.Stream.Progress.{Within, Uses, take_op-length}
use seeddb.Parser.Expressions.Loops.{binary_loop}
use seeddb.Parser.Expressions.{parse_expression}
use seeddb.Parser.Expressions.Writer.{Writer, word}
use seeddb.Parser.Expressions.Levels.{At, Chain, tightness}

and_then-agree :
    {A B : Type 0} (n : ℕ) (r : Parsed A) (g h : A → P B)
    → Within 1 n r
    → ((a : A) (rest : Tokens) → length rest < n → g a rest ≡ h a rest)
    → and_then r g ≡ and_then r h
and_then-agree n (ok a rest) g h w k = k a rest (omega arith)
and_then-agree n syntax_error g h w k = refl
and_then-agree n no_fuel g h w k = refl

-- The loop's result does not depend on its fuel, if there is enough.
loop_fuel :
    (f n m : ℕ) (ops : TokenType → Option BinaryOp) (sub : P Expr) (left : Expr) (ts : Tokens)
    → Uses 1 f sub
    → length ts < f
    → length ts < n
    → length ts < m
    → binary_loop ops sub n left ts ≡ binary_loop ops sub m left ts
unfolding binary_loop
loop_fuel f zero m ops sub left ts u lf ln lm = absurd (omega arith)
loop_fuel f (suc n) zero ops sub left ts u lf ln lm = absurd (omega arith)
loop_fuel f (suc n) (suc m) ops sub left ts u lf ln lm = elim (Option-cases (take_op ops ts)) [
  | inl e ↦ rw (e, binary_loop) refl
  | inr ((op, rest), e) ↦
      let shorter = take_op-length ops ts op rest e in
      rw (e, binary_loop)
        (and_then-agree (length rest) (sub rest)
          (λ right. binary_loop ops sub n (binary op left right))
          (λ right. binary_loop ops sub m (binary op left right)) (u.within rest (omega arith))
          (λ right rest' lt.
            loop_fuel f n m ops sub (binary op left right) rest' u (omega arith) (omega arith)
              (omega arith)))
]

abbrev pub Grows : Writer → Type 0
Grows w = (r : Tokens) → length r < length (w r)

pub take_op-found :
    {A : Type 0} (ops : TokenType → Option A) (t : TokenType) (op : A) (ts : Tokens)
    → ops t ≡ some op
    → take_op ops (word t ∷ ts) ≡ some (op, ts)
unfolding take_op
take_op-found ops t op ts h = rw h refl

-- A turn of the loop.
loop_step :
    (ops : TokenType → Option BinaryOp) (sub : P Expr) (n : ℕ) (a : Expr) (t : TokenType)
    (op : BinaryOp) (ts : Tokens)
    → ops t ≡ some op
    → binary_loop ops sub (suc n) a (word t ∷ ts)
      ≡ and_then (sub ts) (λ right. binary_loop ops sub n (binary op a right))
unfolding binary_loop
loop_step ops sub n a t op ts h = rw (take_op-found ops t op ts h, binary_loop) refl

-- A left-associative operator behind a chain of its level.
pub Chain-step :
    {ops : TokenType → Option BinaryOp} {sub : P Expr → P Expr} {k : ℕ} {wa wb : Writer}
    {a b : Expr} (op : BinaryOp) (t : TokenType)
    → ((f : ℕ) → Uses 1 (suc f) (sub (parse_expression f)))
    → ops t ≡ some op
    → tightness t ≡ k
    → Grows wa
    → Grows wb
    → Chain ops sub k wa a
    → At sub (suc k) wb b
    → Chain ops sub k (λ r. wa (word t ∷ wb r)) (binary op a b)
Chain-step {ops} {sub} {k} {wa} {wb} {a} {b} op t u found rank ga gb ca cb = record {
  loops = λ f r l lt.
      let grown = ga (word t ∷ wb r) in
      let grown' = gb r in
      ca.loops f (word t ∷ wb r) l (omega (arith, rank))
      ∙ loop_step ops (sub (parse_expression f)) (suc (length (wb r))) a t op (wb r) found
      ∙ rw (cb.reads f r (omega arith) lt) (
          loop_fuel (suc f) (suc (length (wb r))) (suc (length r)) ops (sub (parse_expression f))
            (binary op a b) r (u f) (omega arith) (omega arith) (omega arith));
}
