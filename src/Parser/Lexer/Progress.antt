-- ===== src/Parser/Lexer/Progress.antt =====
-- The lexer of src/parser/lexer.cpp moves forward: what each scan takes from the input.
use seeddb.Base.{
  if_elim, ℕ, zero, suc, ◌+◌, ◌≤◌, Bool, [], ◌∷◌, ◌++◌, Option, none, some, Bytes, ◌==◌, ◌&&◌, ◌≡◌,
  inl, inr, refl, ap, ◌∙◌, sym, arith, Bool-cases, length, length-append, append_assoc, true,
}
use seeddb.Parser.Lexer.{
  Place, step, advance, advance_while, skip_line, skip_block, skip_loop, skip_turn,
  skip_whitespace_and_comments,
}

-- At least `n` characters lie between the two places.
pub record Moves (n : ℕ) (rest : Bytes) (p : Place) (left : Bytes) (q : Place) : Type 0 where
  pub text : Bytes
  pub split : rest ≡ text ++ left
  pub counted : q.position ≡ p.position + length text
  pub enough : n ≤ length text

pub Moves-refl : (rest : Bytes) (p : Place) → Moves 0 rest p rest p
Moves-refl rest p = record { text = []; split = refl; counted = omega arith; enough = omega arith }

pub Moves-trans :
    (m n k : ℕ) {a b c : Bytes} {p q r : Place}
    → k ≤ m + n
    → Moves m a p b q
    → Moves n b q c r
    → Moves k a p c r
Moves-trans m n k {c = c} h f g = record {
  text = f.text ++ g.text;
  split = f.split ∙ ap (λ x. f.text ++ x) g.split ∙ sym (append_assoc f.text g.text c);
  counted = omega (arith, f.counted, g.counted, length-append f.text g.text);
  enough = omega (arith, f.enough, g.enough, length-append f.text g.text);
}

pub step-Moves : (c : ℕ) (r : Bytes) (p : Place) → Moves 1 (c ∷ r) p r (step c p)
unfolding step
step-Moves c r p = record {
  text = c ∷ [];
  split = refl;
  counted = ground arith;
  enough = omega arith;
}

pub advance-Moves :
    (rest : Bytes) (p : Place) → Moves 0 rest p (advance rest p).0 (advance rest p).1
unfolding advance
advance-Moves [] p = Moves-refl [] p
advance-Moves (c ∷ r) p =
    Moves-trans 1 0 0 (omega arith) (step-Moves c r p) (Moves-refl r (step c p))

pub advance_while-Moves :
    (test : ℕ → Bool) (rest : Bytes) (p : Place)
    → Moves 0 rest p (advance_while test rest p).1 (advance_while test rest p).2
unfolding advance_while
advance_while-Moves test [] p = Moves-refl [] p
advance_while-Moves test (c ∷ r) p = elim (Bool-cases (test c)) [
  | inl e ↦
      rw e
        (Moves-trans 1 0 0 (omega arith) (step-Moves c r p) (advance_while-Moves test r (step c p)))
  | inr e ↦ rw e (Moves-refl (c ∷ r) p)
]

pub advance_while-Moves_first :
    (test : ℕ → Bool) (c : ℕ) (r : Bytes) (p : Place)
    → test c ≡ true
    → Moves 1 (c ∷ r) p (advance_while test (c ∷ r) p).1 (advance_while test (c ∷ r) p).2
unfolding advance_while
advance_while-Moves_first test c r p e =
    rw e
      (Moves-trans 1 0 1 (omega arith) (step-Moves c r p) (advance_while-Moves test r (step c p)))

skip_line-Moves :
    (rest : Bytes) (p : Place) → Moves 0 rest p (skip_line rest p).0 (skip_line rest p).1
unfolding skip_line
skip_line-Moves rest p = advance_while-Moves _ rest p

skip_block-Moves :
    (rest : Bytes) (p : Place) → Moves 0 rest p (skip_block rest p).0 (skip_block rest p).1
unfolding skip_block
skip_block-Moves [] p = Moves-refl [] p
skip_block-Moves (c ∷ []) p =
    Moves-trans 1 0 0 (omega arith) (step-Moves c [] p) (Moves-refl [] (step c p))
skip_block-Moves (c ∷ d ∷ r) p = elim (Bool-cases (c == b'*' && d == b'/')) [
  | inl e ↦
      rw e (Moves-trans 1 1 0 (omega arith) (step-Moves c (d ∷ r) p) (step-Moves d r (step c p)))
  | inr e ↦ rw e (
      Moves-trans 1 0 0 (omega arith) (step-Moves c (d ∷ r) p)
        (skip_block-Moves (d ∷ r) (step c p)))
]

-- A turn of the white space loop takes a character, if it does not break.
data Turn (c : ℕ) (r : Bytes) (p : Place) : Option (Bytes × Place) → Type 0 where
  stops : Turn c r p none
  takes : (left : Bytes) (q : Place) → Moves 1 (c ∷ r) p left q → Turn c r p (some (left, q))

skip_turn-Turn : (c : ℕ) (r : Bytes) (p : Place) → Turn c r p (skip_turn c r p)
unfolding skip_turn
skip_turn-Turn c r p = if_elim (Turn c r p) _ _ _ (Turn.takes _ _ one) (
    if_elim (Turn c r p) _ _ _ (Turn.takes _ _ (behind two (skip_line-Moves _ _))) (
      if_elim (Turn c r p) _ _ _ (Turn.takes _ _ (behind one (skip_line-Moves _ _))) (
        if_elim (Turn c r p) _ _ _ (Turn.takes _ _ (behind two (skip_block-Moves _ _)))
          Turn.stops)))
  where
    one : Moves 1 (c ∷ r) p r (step c p)
    one = step-Moves c r p

    two : Moves 1 (c ∷ r) p (advance r (step c p)).0 (advance r (step c p)).1
    two = Moves-trans 1 0 1 (omega arith) one (advance-Moves r (step c p))

    behind :
        {b left : Bytes} {q q' : Place}
        → Moves 1 (c ∷ r) p b q
        → Moves 0 b q left q'
        → Moves 1 (c ∷ r) p left q'
    behind f g = Moves-trans 1 0 1 (omega arith) f g

loop-Moves :
    (c : ℕ) (r : Bytes) (p : Place) (loop : Bytes → Place → Bytes × Place)
    (o : Option (Bytes × Place))
    → ((b : Bytes) (q : Place) → Moves 0 b q (loop b q).0 (loop b q).1)
    → Turn c r p o
    → Moves 0
        (c ∷ r)
        p
        (elim o as (λ x. Bytes × Place) [ none ↦ (c ∷ r, p) | some (r', p') ↦ loop r' p' ]).0
        (elim o as (λ x. Bytes × Place) [ none ↦ (c ∷ r, p) | some (r', p') ↦ loop r' p' ]).1
loop-Moves c r p loop none h Turn.stops = Moves-refl (c ∷ r) p
loop-Moves c r p loop (some _) h (Turn.takes b q m) = Moves-trans 1 0 0 (omega arith) m (h b q)

pub skip_loop-Moves :
    (fuel : ℕ) (rest : Bytes) (p : Place)
    → Moves 0 rest p (skip_loop fuel rest p).0 (skip_loop fuel rest p).1
unfolding skip_loop
skip_loop-Moves zero rest p = Moves-refl rest p
skip_loop-Moves (suc fuel) [] p = Moves-refl [] p
skip_loop-Moves (suc fuel) (c ∷ r) p =
    loop-Moves c r p (skip_loop fuel) (skip_turn c r p) (skip_loop-Moves fuel)
      (skip_turn-Turn c r p)

-- Nothing is left, or the white space loop breaks there.
abbrev pub Stops : Bytes × Place → Type 0
Stops ([], q) = Unit
Stops (c ∷ r, q) = skip_turn c r q ≡ none

loop-Stops :
    (c : ℕ) (r : Bytes) (p : Place) (fuel : ℕ) (loop : Bytes → Place → Bytes × Place)
    (o : Option (Bytes × Place))
    → length r ≤ fuel
    → ((b : Bytes) (q : Place) → length b ≤ fuel → Stops (loop b q))
    → skip_turn c r p ≡ o
    → Turn c r p o
    → Stops (elim o as (λ x. Bytes × Place) [ none ↦ (c ∷ r, p) | some (r', p') ↦ loop r' p' ])
loop-Stops c r p fuel loop none h ih e Turn.stops = e
loop-Stops c r p fuel loop (some _) h ih e (Turn.takes b q m) =
    ih b q (omega (arith, m.enough, ap (λ (x : Bytes). length x) m.split, length-append m.text b))

-- Fuel for each character is enough.
skip_loop-Stops :
    (fuel : ℕ) (rest : Bytes) (p : Place) → length rest ≤ fuel → Stops (skip_loop fuel rest p)
unfolding skip_loop
skip_loop-Stops zero [] p h = tt
skip_loop-Stops zero (c ∷ r) p h = absurd (omega arith)
skip_loop-Stops (suc fuel) [] p h = tt
skip_loop-Stops (suc fuel) (c ∷ r) p h =
    loop-Stops c r p fuel (skip_loop fuel) (skip_turn c r p) (omega arith) (skip_loop-Stops fuel)
      refl (skip_turn-Turn c r p)

-- The white space loop runs to its end: the input is used up, or the character it stops at starts
-- neither white space nor a comment.
pub skip_whitespace_and_comments-Stops :
    (rest : Bytes) (p : Place) → Stops (skip_whitespace_and_comments rest p)
unfolding skip_whitespace_and_comments
skip_whitespace_and_comments-Stops rest p = skip_loop-Stops (length rest) rest p (omega arith)
