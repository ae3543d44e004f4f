-- ===== src/Parser/Stream.antt =====
-- src/parser/parser.h and parser.cpp: the parser's view of the tokens, and the results of its
-- functions. The state is the tokens from the current one on; `advance` reads a lexical error as the
-- end of the input, so the list ends there too. No function goes on behind the end.
pub mod Progress
pub mod Reading
use seeddb.Base.{
  ℕ, zero, suc, Bool, true, false, List, [], ◌∷◌, Option, none, Bytes, length, ◌==◌, if◌then◌else◌,
}
use mathlib.Core.Option
use seeddb.Parser.Lexer.{Lexer, make, NumberReaders, LexResult, next_token}
use seeddb.Parser.Token.{
  TokenType, TokenValue, string_value, create_kw, drop_kw, alter_kw, table_kw, index_kw, view_kw,
  select_kw, from_kw, where_kw, insert_kw, into_kw, update_kw, delete_kw, values_kw, set_kw,
  join_kw, inner_kw, left_kw, right_kw, outer_kw, cross_kw, on_kw, using_kw, group_kw, by_kw,
  order_kw, asc_kw, desc_kw, having_kw, limit_kw, offset_kw, distinct_kw, count_kw, sum_kw, avg_kw,
  min_kw, max_kw, exists_kw, in_kw, between_kw, like_kw, is_kw, as_kw, if_kw, case_kw, when_kw,
  then_kw, else_kw, end_kw, coalesce_kw, nullif_kw, integer_kw, bigint_kw, smallint_kw, float_kw,
  double_kw, varchar_kw, char_kw, text_kw, boolean_kw, primary_kw, key_kw, foreign_kw,
  references_kw, unique_kw, not_kw, null_lit, default_kw, and_kw, or_kw, true_lit, false_lit,
  integer_lit, float_lit, string_lit, identifier, plus, minus, star, slash, percent, eq, ne, lt, gt,
  le, ge, concat, lparen, rparen, lbracket, rbracket, comma, semicolon, dot, end_of_input, error,
}

-- The place of a token type in its `enum`.
abbrev number : TokenType → ℕ
number create_kw = 0
number drop_kw = 1
number alter_kw = 2
number table_kw = 3
number index_kw = 4
number view_kw = 5
number select_kw = 6
number from_kw = 7
number where_kw = 8
number insert_kw = 9
number into_kw = 10
number update_kw = 11
number delete_kw = 12
number values_kw = 13
number set_kw = 14
number join_kw = 15
number inner_kw = 16
number left_kw = 17
number right_kw = 18
number outer_kw = 19
number cross_kw = 20
number on_kw = 21
number using_kw = 22
number group_kw = 23
number by_kw = 24
number order_kw = 25
number asc_kw = 26
number desc_kw = 27
number having_kw = 28
number limit_kw = 29
number offset_kw = 30
number distinct_kw = 31
number count_kw = 32
number sum_kw = 33
number avg_kw = 34
number min_kw = 35
number max_kw = 36
number exists_kw = 37
number in_kw = 38
number between_kw = 39
number like_kw = 40
number is_kw = 41
number as_kw = 42
number if_kw = 43
number case_kw = 44
number when_kw = 45
number then_kw = 46
number else_kw = 47
number end_kw = 48
number coalesce_kw = 49
number nullif_kw = 50
number integer_kw = 51
number bigint_kw = 52
number smallint_kw = 53
number float_kw = 54
number double_kw = 55
number varchar_kw = 56
number char_kw = 57
number text_kw = 58
number boolean_kw = 59
number primary_kw = 60
number key_kw = 61
number foreign_kw = 62
number references_kw = 63
number unique_kw = 64
number not_kw = 65
number null_lit = 66
number default_kw = 67
number and_kw = 68
number or_kw = 69
number true_lit = 70
number false_lit = 71
number integer_lit = 72
number float_lit = 73
number string_lit = 74
number identifier = 75
number plus = 76
number minus = 77
number star = 78
number slash = 79
number percent = 80
number eq = 81
number ne = 82
number lt = 83
number gt = 84
number le = 85
number ge = 86
number concat = 87
number lparen = 88
number rparen = 89
number lbracket = 90
number rbracket = 91
number comma = 92
number semicolon = 93
number dot = 94
number end_of_input = 95
number error = 96

abbrev pub same_type : TokenType → TokenType → Bool
same_type a b = number a == number b

-- What the parser's results depend on of a token; the place serves the messages only.
pub record Lexeme : Type 0 where
  pub type : TokenType
  pub value : TokenValue

abbrev pub Tokens : Type 0
Tokens = List Lexeme

-- `Result`; the message of an error is left out. `no_fuel` is not a result of the program.
pub data Parsed (A : Type 0) : Type 0 where
  ok : A → Tokens → Parsed A
  syntax_error : Parsed A
  no_fuel : Parsed A

abbrev pub P : Type 0 → Type 0
P A = Tokens → Parsed A

abbrev pub and_then : {A B : Type 0} → Parsed A → (A → P B) → Parsed B
and_then (ok a ts) f = f a ts
and_then syntax_error f = syntax_error
and_then no_fuel f = no_fuel

infixl 5 ◌>>=◌ ◌>>◌
abbrev pub ◌>>=◌ : {A B : Type 0} → P A → (A → P B) → P B
◌>>=◌ m f ts = and_then (m ts) f

abbrev pub ◌>>◌ : {B : Type 0} → P (Unit {0}) → P B → P B
m >> k = m >>= λ _. k

abbrev pub pure : {A : Type 0} → A → P A
pure a ts = ok a ts

abbrev pub fail : {A : Type 0} → P A
fail ts = syntax_error

-- `check`
unfoldable pub check : TokenType → Tokens → Bool
check type [] = false
check type (t ∷ ts) = same_type t.type type

-- `match`
unfoldable pub accept : TokenType → P Bool
accept type [] = ok false []
accept type (t ∷ ts) = if same_type t.type type then ok true ts else ok false (t ∷ ts)

-- A token that has to be there.
unfoldable pub require : TokenType → P (Unit {0})
require type [] = syntax_error
require type (t ∷ ts) = if same_type t.type type then ok tt ts else syntax_error

-- The lexer gives an identifier its text.
abbrev pub get_text : TokenValue → Bytes
get_text (string_value s) = s
get_text _ = []

-- An identifier that has to be there: its text.
unfoldable pub require_name : P Bytes
require_name [] = syntax_error
require_name (t ∷ ts) =
    if same_type t.type TokenType.identifier then ok (get_text t.value) ts else syntax_error

-- The token is taken if its type stands for a value, such as an operator.
unfoldable pub take_op : {A : Type 0} → (TokenType → Option A) → Tokens → Option (A × Tokens)
take_op ops [] = none
take_op ops (t ∷ ts) = Option.map (λ op. (op, ts)) (ops t.type)

-- `do … while (match(COMMA))`, with fuel; each turn takes a token.
unfoldable pub comma_loop : {A : Type 0} → P A → ℕ → P (List A)
unfolding accept
comma_loop p zero = λ ts. no_fuel
comma_loop p (suc n) = do
  x ← p
  more ← accept comma
  elim more [ true ↦ do xs ← comma_loop p n; pure (x ∷ xs) | false ↦ pure (x ∷ []) ]

unfoldable pub comma_list : {A : Type 0} → P A → P (List A)
unfolding comma_loop
comma_list p ts = comma_loop p (suc (length ts)) ts

module _ (readers : NumberReaders) where
  abbrev pub cut : LexResult → Tokens → Tokens
  cut (LexResult.ok t left q) more =
      if same_type t.type end_of_input then [] else record { type = t.type; value = t.value } ∷ more
  cut (LexResult.err e left q) more = []

  -- What `advance` reads, call by call, with fuel; each call takes a character.
  unfoldable pub read_tokens : ℕ → Lexer → Tokens
  unfolding next_token
  read_tokens zero l = []
  read_tokens (suc n) l = let (result, l') = next_token readers l in cut result (read_tokens n l')

  -- The tokens that a parser of the text reads.
  unfoldable pub tokens : Bytes → Tokens
  unfolding read_tokens make
  tokens text = read_tokens (suc (length text)) (make text)
