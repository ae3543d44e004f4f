-- ===== src/Parser/Lexer/Literals.antt =====
-- Peeking and string literals in src/parser/lexer.cpp.
use seeddb.Base.{
  ℕ, false, [], ◌∷◌, ◌++◌, none, some, Bytes, ◌==◌, if◌then◌else◌, ◌≡◌, inl, inr, refl, ap, ◌∙◌,
  sym, arith, Bool-cases, subst,
}
use mathlib.Core.Option
use seeddb.Parser.Token.{string_lit, string_value}
use seeddb.Parser.Lexer.{
  Place, Lexer, NumberReaders, LexResult, ok, err, step, make_token, advance, is_alpha, is_digit,
  is_space, string_loop, string_token, scan_string, scan_token, scan_next, next_token, peek_token,
  buffer, after, skip_turn, skip_loop, skip_whitespace_and_comments, next_with, peek_with,
}

module _ (readers : NumberReaders) where
  -- What a lexer gives after a peek with that result.
  abbrev PeekOutcome : Lexer → LexResult × Lexer → Type 0
  PeekOutcome l (ok t left q, peeked) =
      (next_token readers peeked).0 ≡ ok t left q
      × (next_token readers peeked).1 ≡ (next_token readers l).1
      × peek_token readers peeked ≡ (ok t left q, peeked)
  PeekOutcome l (err e left q, peeked) = (err e left q, peeked) ≡ next_token readers l

  buffer-PeekOutcome :
      (l : Lexer) (result : LexResult)
      → (next_token readers l ≡ (result, after readers result))
      → PeekOutcome l (buffer readers (result, after readers result))
  unfolding next_token peek_token
  buffer-PeekOutcome l (ok t left q) h = (refl, sym (ap (λ x. x.1) h), refl)
  buffer-PeekOutcome l (err e left q) h = sym h

  -- With an empty peek buffer, a peek that gives a token changes neither what the next `next_token` gives
  -- nor the lexer behind it, and a second peek gives the token again; a peek that fails is a `next_token`
  -- that fails, with the same error and lexer.
  peek_token-PeekOutcome : (l : Lexer) → l.peek_buffer ≡ none → PeekOutcome l (peek_token readers l)
  unfolding next_token peek_token
  peek_token-PeekOutcome l empty =
      let scanned : next_token readers l
          ≡ (scan_next readers l, after readers (scan_next readers l)) =
        ap (next_with readers l) empty in
      let peeked : peek_token readers l
          ≡ buffer readers (scan_next readers l, after readers (scan_next readers l)) =
        ap (peek_with readers l) empty ∙ ap (buffer readers) scanned in
      subst (PeekOutcome l) (sym peeked) (buffer-PeekOutcome l (scan_next readers l) scanned)

-- A string's text between its quotes: each quote is doubled.
abbrev pub escape : Bytes → Bytes
escape [] = []
escape (c ∷ s) = if c == 39 then 39 ∷ 39 ∷ escape s else c ∷ escape s

-- The text does not go on with a quote.
abbrev pub NoQuote : Bytes → Type 0
NoQuote [] = Unit
NoQuote (c ∷ s) = (c == 39) ≡ false

string_loop-char :
    (c : ℕ) (r : Bytes) (p : Place)
    → (c == 39) ≡ false
    → string_loop (c ∷ r) p ≡ (
      Option.map (◌∷◌ c) (string_loop r (step c p)).0,
      (string_loop r (step c p)).1,
      (string_loop r (step c p)).2,
    )
unfolding string_loop
string_loop-char c [] p h = rw h refl
string_loop-char c (d ∷ r) p h = rw h refl

string_loop-end :
    (rest : Bytes) (p : Place)
    → NoQuote rest
    → string_loop (39 ∷ rest) p ≡ (some [], rest, step 39 p)
unfolding string_loop
string_loop-end [] p h = refl
string_loop-end (d ∷ r) p h = rw h refl

string_loop-quotes :
    (r : Bytes) (p : Place)
    → string_loop (39 ∷ 39 ∷ r) p ≡ (
      Option.map (◌∷◌ 39) (string_loop r (step 39 (step 39 p))).0,
      (string_loop r (step 39 (step 39 p))).1,
      (string_loop r (step 39 (step 39 p))).2,
    )
unfolding string_loop
string_loop-quotes r p = refl

string_loop-escape :
    (s rest : Bytes) (p : Place)
    → NoQuote rest
    → (q : Place) × (string_loop (escape s ++ 39 ∷ rest) p ≡ (some s, rest, q))
string_loop-escape [] rest p h = (step 39 p, string_loop-end rest p h)
string_loop-escape (c ∷ s) rest p h = elim (Bool-cases (c == 39)) [
  | inl e ↦
      let (q, more) = string_loop-escape s rest (step 39 (step 39 p)) h in
      let same : c ≡ 39 = ground arith in
      (q, rw e (string_loop-quotes (escape s ++ 39 ∷ rest) p ∙ rw (more, same) refl))
  | inr e ↦
      let (q, more) = string_loop-escape s rest (step c p) h in
      (q, rw e (string_loop-char c (escape s ++ 39 ∷ rest) p e ∙ rw more refl))
]

-- Two results and lexers: the token is a string of that value and the lexer stands before `rest`.
abbrev pub ReadsString : Bytes → Bytes → LexResult × Lexer → Type 0
ReadsString s rest (ok t left q, after) =
    (t.type ≡ string_lit) × (t.value ≡ string_value s) × (after.rest ≡ rest)
ReadsString s rest (err e left q, after) = ⊥

module _ (readers : NumberReaders) where
  scan_string-ReadsString :
      (s rest : Bytes) (p : Place)
      → NoQuote rest
      → ReadsString s rest (
        scan_string (39 ∷ escape s ++ 39 ∷ rest) p,
        after readers (scan_string (39 ∷ escape s ++ 39 ∷ rest) p),
      )
  unfolding scan_string advance string_token make_token
  scan_string-ReadsString s rest p h =
      let (q, e) = string_loop-escape s rest (step 39 p) h in rw e (refl, refl, refl)

  -- A string in quotes, its own quotes doubled, that no quote follows is read as one string token with
  -- the string as its value, and the lexer stands behind the closing quote.
  pub next_token-escape :
      (s rest : Bytes) (p : Place)
      → NoQuote rest
      → ReadsString s rest (
          next_token readers
            (record { rest = 39 ∷ escape s ++ 39 ∷ rest; place = p; peek_buffer = none }))
  unfolding next_token scan_next skip_whitespace_and_comments skip_loop skip_turn scan_token
      is_alpha is_digit is_space
  next_token-escape s rest p h = scan_string-ReadsString s rest p h
