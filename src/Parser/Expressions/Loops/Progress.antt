-- ===== src/Parser/Expressions/Loops/Progress.antt =====
-- The levels of operators of src/parser/parser.cpp take a token at each turn.
use seeddb.Base.{
  ℕ, zero, suc, ◌≤◌, ◌<◌, Option, none, some, length, ◌≡◌, arith, Option-cases, inl, inr,
}
use seeddb.Parser.Token.{TokenType}
use seeddb.Parser.Ast.{Expr, BinaryOp, UnaryOp, unary, binary}
use seeddb.Parser.Stream.{Tokens, P, and_then, pure, take_op}
use seeddb.Parser.Stream.Progress.{
  Within, Uses, Within-weaken, Within-and_then, also, pure-Uses, take_op-length,
}
use seeddb.Parser.Expressions.Loops.{binary_loop, binary_level, prefix_loop, prefix_level}

-- A function that looks for an operator: what it does without one, and behind one.
pub op-Within :
    {A B : Type 0} (ops : TokenType → Option A) (ts : Tokens) (p : P B) (g : A → P B)
    → Within 0 (length ts) (p ts)
    → ((op : A) (rest : Tokens)
        → suc (length rest) ≡ length ts
        → Within 0 (length rest) (g op rest))
    → Within 0 (length ts) (elim (take_op ops ts) [ none ↦ p ts | some (op, rest) ↦ g op rest ])
op-Within ops ts p g h k = elim (Option-cases (take_op ops ts)) [
  | inl e ↦ rw e h
  | inr ((op, rest), e) ↦
      let shorter = take_op-length ops ts op rest e in
      rw e
        (Within-weaken 0 0 (length rest) (length ts) (g op rest) (omega arith) (k op rest shorter))
]

binary_loop-Within :
    (f n : ℕ) (ops : TokenType → Option BinaryOp) (sub : P Expr) (left : Expr)
    → n ≤ f
    → Uses 1 f sub
    → (ts : Tokens) → length ts < n
    → Within 0 (length ts) (binary_loop ops sub n left ts)
unfolding binary_loop
binary_loop-Within f zero ops sub left le u ts lt = absurd (omega arith)
binary_loop-Within f (suc n) ops sub left le u ts lt =
    op-Within ops ts (pure left)
      (λ op rest. and_then (sub rest) (λ right. binary_loop ops sub n (binary op left right)))
      (omega arith)
      (λ op rest shorter.
        Within-and_then 1 0 0 (length rest) n (sub rest) _ (u.within rest (omega arith))
          (omega arith) (omega arith)
          (λ right. record {
            within = λ ts lt.
                binary_loop-Within f n ops sub (binary op left right) (omega arith) u ts lt;
          }))

pub binary_level-Uses :
    {f : ℕ} (ops : TokenType → Option BinaryOp) (sub : P Expr)
    → Uses 1 f sub
    → Uses 1 f (binary_level ops sub)
unfolding binary_level
binary_level-Uses {f} ops sub u = also u (λ left. record {
  within = λ rest lt.
      binary_loop-Within f (suc (length rest)) ops sub left (omega arith) u rest (omega arith);
})

prefix_loop-Within :
    (f n : ℕ) (ops : TokenType → Option UnaryOp) (sub : P Expr)
    → n ≤ f
    → Uses 1 f sub
    → (ts : Tokens) → length ts < n
    → Within 1 (length ts) (prefix_loop ops sub n ts)
unfolding prefix_loop
prefix_loop-Within f zero ops sub le u ts lt = absurd (omega arith)
prefix_loop-Within f (suc n) ops sub le u ts lt = elim (Option-cases (take_op ops ts)) [
  | inl e ↦ rw (e, Within) (u.within ts (omega arith))
  | inr ((op, rest), e) ↦
      let shorter = take_op-length ops ts op rest e in
      rw (e, Within)
        (Within-weaken 1 1 (length rest) (length ts)
          (and_then (prefix_loop ops sub n rest) (λ e. pure (unary op e))) (omega arith)
          (Within-and_then 1 0 1 (length rest) n (prefix_loop ops sub n rest) _
            (prefix_loop-Within f n ops sub (omega arith) u rest (omega arith)) (omega arith)
            (omega arith) (λ e. pure-Uses)))
]

pub prefix_level-Uses :
    {f : ℕ} (ops : TokenType → Option UnaryOp) (sub : P Expr)
    → Uses 1 f sub
    → Uses 1 f (prefix_level ops sub)
unfolding prefix_level
prefix_level-Uses {f} ops sub u = record {
  within = λ ts lt. prefix_loop-Within f (suc (length ts)) ops sub (omega arith) u ts (omega arith);
}
