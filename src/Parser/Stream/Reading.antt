-- ===== src/Parser/Stream/Reading.antt =====
-- The reading of all tokens ends by itself: each call of `next_token` of src/parser/lexer.cpp takes a
-- character, or is the last.
use seeddb.Base.{
  ℕ, zero, suc, ◌<◌, none, length, length-append, ◌≡◌, refl, sym, ap, subst, ◌∙◌, arith, inl, inr,
}
use seeddb.Parser.Lexer.{Lexer, LexResult, NumberReaders, next_token, next_with, after}
use seeddb.Parser.Lexer.Tokens.{IsEnd, next_token-Takes}
use seeddb.Parser.Stream.{Tokens, read_tokens, cut}

module _ (readers : NumberReaders) where
  after-unbuffered : (result : LexResult) → (after readers result).peek_buffer ≡ none
  after-unbuffered (LexResult.ok t left q) = refl
  after-unbuffered (LexResult.err e left q) = refl

  next_token-unbuffered :
      (l : Lexer) → l.peek_buffer ≡ none → (next_token readers l).1.peek_buffer ≡ none
  unfolding next_token
  next_token-unbuffered l empty =
      subst (λ o. (next_with readers l o).1.peek_buffer ≡ none) (sym empty) (after-unbuffered _)

  cut-IsEnd :
      (result : LexResult) (x y : Tokens)
      → IsEnd result
      → cut readers result x ≡ cut readers result y
  cut-IsEnd (LexResult.ok t left q) x y h = rw h refl
  cut-IsEnd (LexResult.err e left q) x y h = absurd h

  -- More fuel than characters gives no other tokens.
  pub read_tokens-fuel :
      (n m : ℕ) (l : Lexer)
      → l.peek_buffer ≡ none
      → length l.rest < n
      → length l.rest < m
      → read_tokens readers n l ≡ read_tokens readers m l
  unfolding read_tokens
  read_tokens-fuel zero m l empty ln lm = absurd (omega arith)
  read_tokens-fuel (suc n) zero l empty ln lm = absurd (omega arith)
  read_tokens-fuel (suc n) (suc m) l empty ln lm =
      let (text, split, counted, some_text, spans) = next_token-Takes readers l empty in
      let result = (next_token readers l).0 in
      let l' = (next_token readers l).1 in
      elim some_text [
        | inl pos ↦
            let shorter = ap length split ∙ length-append text l'.rest in
            ap (cut readers result)
              (read_tokens-fuel n m l' (next_token-unbuffered l empty) (omega arith) (omega arith))
        | inr (ends, left) ↦
            cut-IsEnd result (read_tokens readers n l') (read_tokens readers m l') ends
      ]
