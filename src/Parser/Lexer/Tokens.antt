-- ===== src/Parser/Lexer/Tokens.antt =====
-- The tokens of src/parser/lexer.cpp: what `next_token` takes from the input, and where a token stands.
use seeddb.Base.{
  if_elim, ℕ, ◌+◌, Bool, true, false, [], ◌∷◌, Option, none, some, Bytes, ◌==◌, ◌||◌, if◌then◌else◌,
  ◌≡◌, inl, inr, refl, arith, Bool-cases, ◌≤◌, ◌++◌, length, ◌<◌, ◌⊎◌, subst, sym,
}
use seeddb.Parser.Token.{
  TokenType, TokenValue, Token, no_value, identifier, string_value, le, ne, lt, ge, gt, concat,
}
use seeddb.Parser.Lexer.{
  Place, Lexer, NumberReaders, LexResult, ok, err, LexError, unexpected_character, invalid_number,
  Scanned, step, make_token, advance, advance_while, is_alpha, is_digit, is_word, word_token,
  scan_identifier_or_keyword, scan_fraction, scan_sign, scan_exponent, number_token, scan_number,
  string_loop, string_token, scan_string, single_type, scan_operator, scan_token, scan_next,
  next_token, skip_whitespace_and_comments, peek_char, next_with, after, end_of_input,
}
use seeddb.Parser.Lexer.Progress.{
  Moves, Moves-refl, Moves-trans, step-Moves, advance-Moves, advance_while-Moves,
  advance_while-Moves_first, skip_loop-Moves,
}

-- A scan from a place takes a character at least; a token starts there and ends where it stops.
pub data Reads (rest : Bytes) (p : Place) : LexResult → Type 0 where
  reads :
      (t : Token) (left : Bytes) (q : Place)
      → Moves 1 rest p left q
      → t.loc.start ≡ p.position
      → t.loc.start + t.loc.length ≡ q.position
      → Reads rest p (ok t left q)
  fails :
      (e : LexError) (left : Bytes) (q : Place)
      → Moves 1 rest p left q
      → Reads rest p (err e left q)

make_token-Reads :
    (rest : Bytes) (type : TokenType) (value : TokenValue) (p : Place) (left : Bytes) (q : Place)
    → Moves 1 rest p left q
    → Reads rest p (make_token type value p left q)
unfolding make_token
make_token-Reads rest type value p left q m = Reads.reads _ left q m refl (omega (arith, m.counted))

word_token-Reads :
    (rest : Bytes) (p : Place) (text left : Bytes) (q : Place) (found : Option TokenType)
    → Moves 1 rest p left q
    → Reads rest p (elim found as (λ x. LexResult) [
      | some type ↦ make_token type no_value p left q
      | none ↦ make_token identifier (string_value text) p left q
    ])
word_token-Reads rest p text left q (some type) m = make_token-Reads rest _ _ p left q m
word_token-Reads rest p text left q none m = make_token-Reads rest _ _ p left q m

scan_word-Reads :
    (c : ℕ) (r : Bytes) (p : Place)
    → (is_alpha c || c == b'_') ≡ true
    → Reads (c ∷ r) p (scan_identifier_or_keyword (c ∷ r) p)
unfolding scan_identifier_or_keyword word_token
scan_word-Reads c r p h =
    word_token-Reads (c ∷ r) p _ _ _ _ (advance_while-Moves_first is_word c r p (ground arith))

fraction-Moves :
    (rest : Bytes) (p : Place)
    → Moves 0 rest p (scan_fraction rest p).1.1 (scan_fraction rest p).1.2
unfolding scan_fraction
fraction-Moves rest p =
    if_elim (λ (x : Bool × Scanned). Moves 0 rest p x.1.1 x.1.2) _ _ _
      (Moves-trans 0 0 0 (omega arith) (advance-Moves rest p) (advance_while-Moves is_digit _ _))
      (Moves-refl rest p)

sign-Moves : (rest : Bytes) (p : Place) → Moves 0 rest p (scan_sign rest p).1 (scan_sign rest p).2
unfolding scan_sign
sign-Moves rest p =
    if_elim (λ (x : Scanned). Moves 0 rest p x.1 x.2) _ _ _ (advance-Moves rest p)
      (Moves-refl rest p)

exponent-Moves :
    (rest : Bytes) (p : Place)
    → Moves 0 rest p (scan_exponent rest p).2.1 (scan_exponent rest p).2.2
unfolding scan_exponent
exponent-Moves rest p =
    let (r, q) = advance rest p in
    let signed = Moves-trans 0 0 0 (omega arith) (advance-Moves rest p) (sign-Moves r q) in
    elim (Bool-cases (peek_char rest 0 == b'e' || peek_char rest 0 == b'E')) [
      | inl e ↦ elim (Bool-cases (is_digit (peek_char (scan_sign r q).1 0))) [
        | inl e' ↦
            rw (e, e') (Moves-trans 0 0 0 (omega arith) signed (advance_while-Moves is_digit _ _))
        | inr e' ↦ rw (e, e') signed
      ]
      | inr e ↦ rw e (Moves-refl rest p)
    ]

converted-Reads :
    (rest : Bytes) (p : Place) (left : Bytes) (q : Place) (found : Option ℕ) (token : ℕ → LexResult)
    → Moves 1 rest p left q
    → ((v : ℕ) → Reads rest p (token v))
    → Reads rest p
        (elim found as (λ x. LexResult) [ none ↦ err invalid_number left q | some v ↦ token v ])
converted-Reads rest p left q none token m h = Reads.fails _ left q m
converted-Reads rest p left q (some v) token m h = h v

module _ (readers : NumberReaders) where
  number_token-Reads :
      (rest : Bytes) (is_float : Bool) (text : Bytes) (p : Place) (left : Bytes) (q : Place)
      → Moves 1 rest p left q
      → Reads rest p (number_token readers is_float text p left q)
  unfolding number_token
  number_token-Reads rest true text p left q m =
      converted-Reads rest p left q (readers.stod text) _ m
        (λ v. make_token-Reads rest _ _ p left q m)
  number_token-Reads rest false text p left q m =
      converted-Reads rest p left q (readers.stoll text) _ m
        (λ v. make_token-Reads rest _ _ p left q m)

  scan_number-Reads :
      (c : ℕ) (r : Bytes) (p : Place)
      → is_digit c ≡ true
      → Reads (c ∷ r) p (scan_number readers (c ∷ r) p)
  unfolding scan_number
  scan_number-Reads c r p h =
      if_elim (Reads (c ∷ r) p) _ _ _ (Reads.fails _ _ _ whole)
        (number_token-Reads (c ∷ r) _ _ p _ _ whole)
    where
      digits : Scanned
      digits = advance_while is_digit (c ∷ r) p

      fraction : Bool × Scanned
      fraction = scan_fraction digits.1 digits.2

      whole :
          Moves 1
            (c ∷ r)
            p
            (scan_exponent fraction.1.1 fraction.1.2).2.1
            (scan_exponent fraction.1.1 fraction.1.2).2.2
      whole =
          Moves-trans 1 0 1 (omega arith)
            (Moves-trans 1 0 1 (omega arith) (advance_while-Moves_first is_digit c r p h)
              (fraction-Moves digits.1 digits.2))
            (exponent-Moves fraction.1.1 fraction.1.2)

-- The input that a string leaves.
string_loop-Moves :
    (rest : Bytes) (p : Place) → Moves 0 rest p (string_loop rest p).1 (string_loop rest p).2
unfolding string_loop
string_loop-Moves [] p = Moves-refl [] p
string_loop-Moves (c ∷ []) p =
    if_elim (λ (x : Option Bytes × Bytes × Place). Moves 0 (c ∷ []) p x.1 x.2) _ _ _ last last
  where
    last : Moves 0 (c ∷ []) p [] (step c p)
    last = Moves-trans 1 0 0 (omega arith) (step-Moves c [] p) (Moves-refl [] (step c p))
string_loop-Moves (c ∷ d ∷ r) p =
    let one = step-Moves c (d ∷ r) p in
    let two = Moves-trans 1 1 2 (omega arith) one (step-Moves d r (step c p)) in
    let quoted = Moves-trans 2 0 0 (omega arith) two (string_loop-Moves r (step d (step c p))) in
    let more = Moves-trans 1 0 0 (omega arith) one (string_loop-Moves (d ∷ r) (step c p)) in
    let closed = Moves-trans 1 0 0 (omega arith) one (Moves-refl (d ∷ r) (step c p)) in
    elim (Bool-cases (c == 39)) [
      | inl e ↦ elim (Bool-cases (d == 39)) [
        | inl e' ↦ rw (e, e') quoted
        | inr e' ↦ rw (e, e') closed
      ]
      | inr e ↦ rw e more
    ]

string_token-Reads :
    (rest : Bytes) (p : Place) (x : Option Bytes × Bytes × Place)
    → Moves 1 rest p x.1 x.2
    → Reads rest p (string_token p x)
unfolding string_token
string_token-Reads rest p (none, left, q) m = Reads.fails _ left q m
string_token-Reads rest p (some v, left, q) m = make_token-Reads rest _ _ p left q m

scan_string-Reads : (c : ℕ) (r : Bytes) (p : Place) → Reads (c ∷ r) p (scan_string (c ∷ r) p)
unfolding scan_string advance
scan_string-Reads c r p =
    string_token-Reads (c ∷ r) p _
      (Moves-trans 1 0 1 (omega arith) (step-Moves c r p) (string_loop-Moves r (step c p)))

single-Reads :
    (c : ℕ) (r : Bytes) (p : Place) (found : Option TokenType)
    → Reads (c ∷ r) p (elim found as (λ x. LexResult) [
      | some type ↦ make_token type no_value p r (step c p)
      | none ↦ err unexpected_character r (step c p)
    ])
single-Reads c r p none = Reads.fails _ r _ (step-Moves c r p)
single-Reads c r p (some type) = make_token-Reads (c ∷ r) _ _ p r _ (step-Moves c r p)

scan_operator-Reads : (c : ℕ) (r : Bytes) (p : Place) → Reads (c ∷ r) p (scan_operator c r p)
unfolding scan_operator
scan_operator-Reads c r p =
    let d = peek_char r 0 in
    either (c == b'<') (either (d == b'=') (two le) (either (d == b'>') (two ne) (one lt))) (
      either (c == b'>') (either (d == b'=') (two ge) (one gt)) (
        either (c == b'!') (either (d == b'=') (two ne) wrong) (
          either (c == b'|') (either (d == b'|') (two concat) wrong)
            (single-Reads c r p (single_type c)))))
  where
    either :
        (b : Bool) {x y : LexResult}
        → Reads (c ∷ r) p x
        → Reads (c ∷ r) p y
        → Reads (c ∷ r) p (if b then x else y)
    either b h k = if_elim (Reads (c ∷ r) p) b _ _ h k

    one : (type : TokenType) → Reads (c ∷ r) p (make_token type no_value p r (step c p))
    one type = make_token-Reads (c ∷ r) type _ p r _ (step-Moves c r p)

    two :
        (type : TokenType)
        → Reads
            (c ∷ r)
            p
            (make_token type no_value p (advance r (step c p)).0 (advance r (step c p)).1)
    two type =
        make_token-Reads (c ∷ r) type _ p _ _
          (Moves-trans 1 0 1 (omega arith) (step-Moves c r p) (advance-Moves r (step c p)))

    wrong : Reads (c ∷ r) p (err unexpected_character r (step c p))
    wrong = Reads.fails _ r _ (step-Moves c r p)

-- What `next_token` takes of the input, with an empty peek buffer: a character at least, unless nothing
-- is left behind the white space and the token is the end of the input. A token lies within the text
-- that is taken and ends with it.
abbrev pub Spans : Place → LexResult → Place → Type 0
Spans p (ok t left q) q' = (p.position ≤ t.loc.start) × (t.loc.start + t.loc.length ≡ q'.position)
Spans p (err e left q) q' = Unit

abbrev pub IsEnd : LexResult → Type 0
IsEnd (ok t left q) = t.type ≡ end_of_input
IsEnd (err e left q) = ⊥

dispatch-Reads :
    (rest : Bytes) (p : Place) (word digit quote : Bool) (a b c d : LexResult)
    → (word ≡ true → Reads rest p a)
    → (digit ≡ true → Reads rest p b)
    → Reads rest p c
    → Reads rest p d
    → Reads rest p (if word then a else if digit then b else if quote then c else d)
dispatch-Reads rest p true digit quote a b c d ha hb hc hd = ha refl
dispatch-Reads rest p false true quote a b c d ha hb hc hd = hb refl
dispatch-Reads rest p false false true a b c d ha hb hc hd = hc
dispatch-Reads rest p false false false a b c d ha hb hc hd = hd

abbrev pub Takes : Lexer → LexResult → Lexer → Type 0
Takes l result after =
    (text : Bytes) × (l.rest ≡ text ++ after.rest)
    × (after.place.position ≡ l.place.position + length text)
    × ((0 < length text) ⊎ (IsEnd result × (after.rest ≡ [])))
    × Spans l.place result after.place

module _ (readers : NumberReaders) where
  scan_token-Reads :
      (c : ℕ) (r : Bytes) (p : Place) → Reads (c ∷ r) p (scan_token readers (c ∷ r) p)
  unfolding scan_token
  scan_token-Reads c r p =
      dispatch-Reads (c ∷ r) p (is_alpha c || c == b'_') (is_digit c) (c == 39)
        (scan_identifier_or_keyword (c ∷ r) p) (scan_number readers (c ∷ r) p)
        (scan_string (c ∷ r) p) (scan_operator c r p) (scan_word-Reads c r p)
        (scan_number-Reads readers c r p) (scan_string-Reads c r p) (scan_operator-Reads c r p)

  -- Behind the white space.
  Reads-Takes :
      (l : Lexer) (rest : Bytes) (p : Place) (result : LexResult)
      → Moves 0 l.rest l.place rest p
      → Reads rest p result
      → Takes l result (after readers result)
  Reads-Takes l rest p (ok _ _ _) m (Reads.reads t left q n starts stops) =
      let all = Moves-trans 0 1 1 (omega arith) m n in
      (
        all.text,
        all.split,
        all.counted,
        inl (omega (arith, all.enough)),
        (omega (arith, m.counted, starts), stops),
      )
  Reads-Takes l rest p (err _ _ _) m (Reads.fails e left q n) =
      let all = Moves-trans 0 1 1 (omega arith) m n in
      (all.text, all.split, all.counted, inl (omega (arith, all.enough)), tt)

  scan_rest-Takes :
      (l : Lexer) (rest : Bytes) (p : Place)
      → Moves 0 l.rest l.place rest p
      → Takes l (scan_token readers rest p) (after readers (scan_token readers rest p))
  unfolding scan_token
  scan_rest-Takes l [] p m =
      (m.text, m.split, m.counted, inr (refl, refl), (omega (arith, m.counted), omega arith))
  scan_rest-Takes l (c ∷ r) p m = Reads-Takes l (c ∷ r) p _ m (scan_token-Reads c r p)

  -- With an empty peek buffer `next_token`, whether it gives a token or an error, takes a text from the
  -- front of the input that is not empty, or there is nothing left and the token is the end of the
  -- input. The position grows by the text's length. A token starts within the text and ends with it.
  pub next_token-Takes :
      (l : Lexer) → l.peek_buffer ≡ none → Takes l (next_token readers l).0 (next_token readers l).1
  unfolding next_token scan_next skip_whitespace_and_comments
  next_token-Takes l empty =
      subst (λ o. Takes l (next_with readers l o).0 (next_with readers l o).1) (sym empty)
        (scan_rest-Takes l _ _ (skip_loop-Moves (length l.rest) l.rest l.place))
