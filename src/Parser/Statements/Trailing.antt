-- ===== src/Parser/Statements/Trailing.antt =====
-- `Parser::parse` of src/parser/parser.cpp does not look at what stands behind the statement, and
-- `Parser::advance` reads a lexical error as the end of the input.
use seeddb.Base.{false, ◌∷◌, Bytes, ◌≡◌, refl}
use seeddb.Parser.Token.{TokenType, where_kw}
use seeddb.Parser.Ast.{no_expr}
use seeddb.Parser.Stream.{Tokens, ok, check}
use seeddb.Parser.Expressions.Writer.{word, name_token}
use seeddb.Parser.Expressions.Starts.{accept-other}
use seeddb.Parser.Statements.{parse, delete_stmt}

-- `DELETE FROM t`, whatever tokens follow but WHERE, is the statement that deletes every row of the
-- table; the tokens that follow are left.
pub parse-delete_all :
    (name : Bytes) (ts : Tokens)
    → check where_kw ts ≡ false
    → parse (word TokenType.delete_kw ∷ word TokenType.from_kw ∷ name_token name ∷ ts)
      ≡ ok (delete_stmt (record { table_name = name; where_clause = no_expr })) ts
unfolding parse
parse-delete_all name ts h = rw (accept-other where_kw ts h) refl
