-- ===== src/Parser/Lexer/Tests.antt =====
-- Runs of the lexer of src/parser/lexer.cpp, and its theorems at concrete inputs.
use seeddb.Base.{◌∷◌, ◌++◌, none, some, ◌≡◌, refl, codes, length}
use seeddb.Parser.Token.{TokenType, select_kw, end_of_input}
use seeddb.Parser.Lexer.{Lexer, NumberReaders, LexResult, ok, err, next_token}
use seeddb.Parser.Lexer.Tokens.{Takes, next_token-Takes}
use seeddb.Parser.Lexer.Literals.{escape, ReadsString, next_token-escape}

-- Readers that give the number of characters.
abbrev readers : NumberReaders
readers = record { stod = λ s. some (length s); stoll = λ s. some (length s) }

abbrev query : Lexer
query = record {
  rest = codes "  -- all\n/* rows */ select * from t where a <= 12";
  place = record { position = 0; line = 1; column = 1 };
  peek_buffer = none;
}

next_token-Takes_example : Takes query (next_token readers query).0 (next_token readers query).1
next_token-Takes_example = next_token-Takes readers query refl

next_token-escape_example : ReadsString (codes "it's") (codes ", 1") (
    next_token readers (record {
      rest = 39 ∷ escape (codes "it's") ++ 39 ∷ codes ", 1";
      place = record { position = 4; line = 1; column = 5 };
      peek_buffer = none;
    }))
next_token-escape_example =
    next_token-escape readers (codes "it's") (codes ", 1")
      (record { position = 4; line = 1; column = 5 }) refl

abbrev type_of : LexResult → TokenType
type_of (ok t left q) = t.type
type_of (err e left q) = end_of_input

first_token : type_of (next_token readers query).0 ≡ select_kw
unfolding next_token seeddb.Common.Value.str_equal
first_token = refl
