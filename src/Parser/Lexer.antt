-- ===== src/Parser/Lexer.antt =====
-- src/parser/lexer.cpp: the lexer. `input_` and `position_` are the input from the position on and the
-- number of characters before it.
pub mod Keywords
pub mod Progress
pub mod Tokens
pub mod Literals
mod Tests
use seeddb.Base.{
  ℕ, zero, suc, ◌+◌, ◌-◌, Bool, true, false, not, List, [], ◌∷◌, ◌++◌, map, Option, none, some,
  Bytes, leb, ◌==◌, ◌&&◌, ◌||◌, if◌then◌else◌, length, get_or,
}
use mathlib.Core.Option
use seeddb.Parser.Token.{
  TokenValue, no_value, int_value, float_value, string_value, TokenType, integer_lit, float_lit,
  string_lit, identifier, plus, minus, star, slash, percent, eq, ne, lt, gt, le, ge, concat, lparen,
  rparen, lbracket, rbracket, comma, semicolon, dot, end_of_input, Location, Token,
}
use seeddb.Executor.Functions.{to_upper}
use seeddb.Parser.Lexer.Keywords.{keywords, find_keyword}

-- `position_`, `line_` and `column_`
pub record Place : Type 0 where
  pub position : ℕ
  pub line : ℕ
  pub column : ℕ

pub record Lexer : Type 0 where
  pub rest : Bytes
  pub place : Place
  pub peek_buffer : Option Token

-- The constructor.
unfoldable pub make : Bytes → Lexer
make input = record {
  rest = input;
  place = record { position = 0; line = 1; column = 1 };
  peek_buffer = none;
}

-- What `std::stod` and `std::stoll` give for a text; `none` where they throw.
pub record NumberReaders : Type 0 where
  pub stod : Bytes → Option ℕ
  pub stoll : Bytes → Option ℕ

-- The error codes of the lexer.
pub data LexError : Type 0 where
  unexpected_character invalid_number unterminated_string : LexError

-- `Result<Token>`, with the input left and the place there.
pub data LexResult : Type 0 where
  ok : Token → Bytes → Place → LexResult
  err : LexError → Bytes → Place → LexResult

-- `advance` over the character `c`.
unfoldable pub step : ℕ → Place → Place
step c p =
    if c == 10
    then record { position = p.position + 1; line = p.line + 1; column = 1 }
    else record p { position = p.position + 1; column = p.column + 1 }

-- `peek_char`: 0 behind the end.
abbrev pub peek_char : Bytes → ℕ → ℕ
peek_char rest offset = get_or rest offset 0

-- `make_token`: `start` is the place where the token starts.
unfoldable pub make_token : TokenType → TokenValue → Place → Bytes → Place → LexResult
make_token type value start rest p =
    ok
      (record {
        type = type;
        value = value;
        loc = record {
          line = start.line;
          column = start.column;
          start = start.position;
          length = p.position - start.position;
        };
      })
      rest p

unfoldable pub is_space : ℕ → Bool
is_space c = c == 32 || (leb 9 c && leb c 13)

unfoldable pub is_digit : ℕ → Bool
is_digit c = leb b'0' c && leb c b'9'

unfoldable pub is_alpha : ℕ → Bool
is_alpha c = (leb b'a' c && leb c b'z') || (leb b'A' c && leb c b'Z')

-- A loop that advances while the characters pass the test: their text, and the input left.
abbrev pub Scanned : Type 0
Scanned = Bytes × Bytes × Place

unfoldable pub advance_while : (ℕ → Bool) → Bytes → Place → Scanned
unfolding step
advance_while test [] p = ([], [], p)
advance_while test (c ∷ r) p =
    let (text, left, q) = advance_while test r (step c p) in
    if test c then (c ∷ text, left, q) else ([], c ∷ r, p)

-- The loop of a block comment, behind its opening.
unfoldable pub skip_block : Bytes → Place → Bytes × Place
unfolding step
skip_block [] p = ([], p)
skip_block (c ∷ []) p = ([], step c p)
skip_block (c ∷ d ∷ r) p =
    let more = skip_block (d ∷ r) (step c p) in
    if c == b'*' && d == b'/' then (r, step d (step c p)) else more

abbrev not_newline : ℕ → Bool
not_newline c = not (c == 10)

-- `advance`, which stays at the end of the input.
unfoldable pub advance : Bytes → Place → Bytes × Place
unfolding step
advance [] p = ([], p)
advance (c ∷ r) p = (r, step c p)

-- The rest of a line comment.
unfoldable pub skip_line : Bytes → Place → Bytes × Place
unfolding advance_while
skip_line rest p = let (text, left, q) = advance_while not_newline rest p in (left, q)

-- One turn of the loop of `skip_whitespace_and_comments` at the character `c`; `none` is its last
-- `break`.
unfoldable pub skip_turn : ℕ → Bytes → Place → Option (Bytes × Place)
unfolding is_space skip_line skip_block advance step
skip_turn c r p =
    let (r', p') = advance r (step c p) in
    if is_space c
    then some (r, step c p)
    else if c == b'-' && peek_char r 0 == b'-'
    then some (skip_line r' p')
    else if c == b'#'
    then some (skip_line r (step c p))
    else if c == b'/' && peek_char r 0 == b'*'
    then some (skip_block r' p')
    else none

-- The loop, with fuel; each turn takes a character.
unfoldable pub skip_loop : ℕ → Bytes → Place → Bytes × Place
unfolding skip_turn
skip_loop zero rest p = (rest, p)
skip_loop (suc fuel) [] p = ([], p)
skip_loop (suc fuel) (c ∷ r) p = elim (skip_turn c r p) [
  | none ↦ (c ∷ r, p)
  | some (r', p') ↦ skip_loop fuel r' p'
]

unfoldable pub skip_whitespace_and_comments : Bytes → Place → Bytes × Place
unfolding skip_loop
skip_whitespace_and_comments rest p = skip_loop (length rest) rest p

abbrev is_word : ℕ → Bool
is_word c = is_alpha c || is_digit c || c == b'_'

-- The token of a word: a keyword or an identifier.
unfoldable pub word_token : Place → Scanned → LexResult
unfolding make_token find_keyword to_upper
word_token start (text, left, q) = elim (find_keyword keywords (map to_upper text)) [
  | some type ↦ make_token type no_value start left q
  | none ↦ make_token identifier (string_value text) start left q
]

unfoldable pub scan_identifier_or_keyword : Bytes → Place → LexResult
unfolding advance_while word_token is_alpha is_digit
scan_identifier_or_keyword rest p = word_token p (advance_while is_word rest p)

-- The fraction behind the digits: whether there is one, and its text.
unfoldable pub scan_fraction : Bytes → Place → Bool × Scanned
unfolding advance advance_while is_digit
scan_fraction rest p =
    let (r, q) = advance rest p in
    let (digits, left, q') = advance_while is_digit r q in
    if peek_char rest 0 == b'.' && is_digit (peek_char rest 1)
    then (true, (b'.' ∷ digits, left, q'))
    else (false, ([], rest, p))

-- The optional sign of the exponent.
unfoldable pub scan_sign : Bytes → Place → Scanned
unfolding advance
scan_sign rest p =
    let (r, q) = advance rest p in
    if peek_char rest 0 == b'+' || peek_char rest 0 == b'-'
    then (peek_char rest 0 ∷ [], r, q)
    else ([], rest, p)

-- The exponent: whether there is one, whether it has a digit, and its text.
unfoldable pub scan_exponent : Bytes → Place → Bool × Bool × Scanned
unfolding advance advance_while is_digit scan_sign
scan_exponent rest p =
    let (r, q) = advance rest p in
    let (sign, r', q') = scan_sign r q in
    let (digits, left, q'') = advance_while is_digit r' q' in
    if peek_char rest 0 == b'e' || peek_char rest 0 == b'E'
    then if is_digit (peek_char r' 0)
      then (true, true, (peek_char rest 0 ∷ sign ++ digits, left, q''))
      else (true, false, ([], r', q'))
    else (false, true, ([], rest, p))

module _ (readers : NumberReaders) where
  -- The conversion of the text.
  unfoldable pub number_token : Bool → Bytes → Place → Bytes → Place → LexResult
  unfolding make_token
  number_token true text start left q = elim (readers.stod text) [
    | none ↦ err invalid_number left q
    | some v ↦ make_token float_lit (float_value v) start left q
  ]
  number_token false text start left q = elim (readers.stoll text) [
    | none ↦ err invalid_number left q
    | some v ↦ make_token integer_lit (int_value v) start left q
  ]

  unfoldable pub scan_number : Bytes → Place → LexResult
  unfolding advance_while is_digit scan_fraction scan_exponent number_token
  scan_number rest p =
      let (digits, r, q) = advance_while is_digit rest p in
      let (has_fraction, (fraction, r', q')) = scan_fraction r q in
      let (has_exponent, valid, (exponent, left, q'')) = scan_exponent r' q' in
      if not valid
      then err invalid_number left q''
      else number_token (has_fraction || has_exponent) (digits ++ fraction ++ exponent) p left q''

-- The loop of `scan_string` behind the opening quote, 39: its value, or none at the end of the input.
unfoldable pub string_loop : Bytes → Place → Option Bytes × Bytes × Place
unfolding step
string_loop [] p = (none, [], p)
string_loop (c ∷ []) p = if c == 39 then (some [], [], step c p) else (none, [], step c p)
string_loop (c ∷ d ∷ r) p =
    let (value, left, q) = string_loop r (step d (step c p)) in
    let (value', left', q') = string_loop (d ∷ r) (step c p) in
    if c == 39
    then if d == 39 then (Option.map (◌∷◌ 39) value, left, q) else (some [], d ∷ r, step c p)
    else (Option.map (◌∷◌ c) value', left', q')

-- The token of a string, or the error at its end.
unfoldable pub string_token : Place → Option Bytes × Bytes × Place → LexResult
unfolding make_token
string_token start (none, left, q) = err unterminated_string left q
string_token start (some value, left, q) = make_token string_lit (string_value value) start left q

unfoldable pub scan_string : Bytes → Place → LexResult
unfolding advance string_loop string_token
scan_string rest p = let (r, q) = advance rest p in string_token p (string_loop r q)

-- The tokens of one character.
unfoldable pub single_type : ℕ → Option TokenType
single_type c =
    if c == b'('
    then some lparen
    else if c == b')'
    then some rparen
    else if c == b'['
    then some lbracket
    else if c == b']'
    then some rbracket
    else if c == b','
    then some comma
    else if c == b';'
    then some semicolon
    else if c == b'.'
    then some dot
    else if c == b'+'
    then some plus
    else if c == b'-'
    then some minus
    else if c == b'*'
    then some star
    else if c == b'/'
    then some slash
    else if c == b'%'
    then some percent
    else if c == b'='
    then some eq
    else none

-- The operators, at the character `c`: the place behind it is `q`, and that behind the next one `q'`.
unfoldable pub scan_operator : ℕ → Bytes → Place → LexResult
unfolding step advance make_token single_type
scan_operator c r p =
    let q = step c p in
    let (r', q') = advance r q in
    let d = peek_char r 0 in
    if c == b'<'
    then if d == b'='
      then make_token le no_value p r' q'
      else if d == b'>'
      then make_token ne no_value p r' q'
      else make_token lt no_value p r q
    else if c == b'>'
    then if d == b'=' then make_token ge no_value p r' q' else make_token gt no_value p r q
    else if c == b'!'
    then if d == b'=' then make_token ne no_value p r' q' else err unexpected_character r q
    else if c == b'|'
    then if d == b'|' then make_token concat no_value p r' q' else err unexpected_character r q
    else elim (single_type c) [
      | some type ↦ make_token type no_value p r q
      | none ↦ err unexpected_character r q
    ]

module _ (readers : NumberReaders) where
  -- `next_token` behind the white space.
  unfoldable pub scan_token : Bytes → Place → LexResult
  unfolding is_alpha is_digit scan_identifier_or_keyword scan_number scan_string scan_operator
  scan_token [] p =
      ok
        (record {
          type = end_of_input;
          value = no_value;
          loc = record { line = p.line; column = p.column; start = p.position; length = 0 };
        })
        [] p
  scan_token (c ∷ r) p =
      if is_alpha c || c == b'_'
      then scan_identifier_or_keyword (c ∷ r) p
      else if is_digit c
      then scan_number readers (c ∷ r) p
      else if c == 39
      then scan_string (c ∷ r) p
      else scan_operator c r p

  -- The lexer behind the result.
  abbrev pub after : LexResult → Lexer
  after (ok t left q) = record { rest = left; place = q; peek_buffer = none }
  after (err e left q) = record { rest = left; place = q; peek_buffer = none }

  unfoldable pub scan_next : Lexer → LexResult
  unfolding skip_whitespace_and_comments scan_token
  scan_next l = let (rest, p) = skip_whitespace_and_comments l.rest l.place in scan_token rest p

  abbrev pub next_with : Lexer → Option Token → LexResult × Lexer
  next_with l (some t) = (ok t l.rest l.place, record l { peek_buffer = none })
  next_with l none = let result = scan_next l in (result, after result)

  unfoldable pub next_token : Lexer → LexResult × Lexer
  unfolding scan_next
  next_token l = next_with l l.peek_buffer

  abbrev buffer : LexResult × Lexer → LexResult × Lexer
  buffer (ok t left q, l) = (ok t left q, record l { peek_buffer = some t })
  buffer (err e left q, l) = (err e left q, l)

  abbrev peek_with : Lexer → Option Token → LexResult × Lexer
  peek_with l (some t) = (ok t l.rest l.place, l)
  peek_with l none = buffer (next_token l)

  unfoldable pub peek_token : Lexer → LexResult × Lexer
  unfolding next_token
  peek_token l = peek_with l l.peek_buffer
