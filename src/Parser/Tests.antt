-- ===== src/Parser/Tests.antt =====
-- Runs of the parser of src/parser on texts, and its theorems at concrete inputs.
use seeddb.Base.{
  length, ℕ, ◌+◌, ◌*◌, ◌-◌, [], ◌∷◌, none, some, ◌≡◌, refl, codes, Bytes, arith, false,
}
use seeddb.Parser.Token.{TokenType, int_value}
use seeddb.Parser.Lexer.{NumberReaders}
use seeddb.Common.Value.{str_equal}
use seeddb.Parser.Stream.{check, Tokens, Parsed, ok, tokens}
use seeddb.Parser.Ast.{
  literal, column_ref, binary, no_expr, add_op, mul_op, eq_op, and_op, sub_op, unary, not_op,
  in_expr, no_exprs, more_exprs, Expr,
}
use seeddb.Parser.Expressions.{parse_expression}
use seeddb.Parser.Statements.{Stmt, delete_stmt, parse, parse_all}
use seeddb.Parser.Statements.Progress.{ReadsAll, parse_all-ReadsAll}
use seeddb.Parser.Expressions.Writer.{word, name_token, write, IsWritable}
use seeddb.Parser.Expressions.Levels.{tightness}
use seeddb.Parser.Expressions.RoundTrip.{parse_expression-write}
use seeddb.Parser.Statements.Trailing.{parse-delete_all}
use seeddb.Parser.Stream.Progress.{Within}

abbrev digits : ℕ → Bytes → ℕ
digits n [] = n
digits n (c ∷ cs) = digits (n * 10 + (c - b'0')) cs

-- Decimal integers, and no floating-point numbers.
abbrev readers : NumberReaders
readers = record { stod = λ text. none; stoll = λ text. some (digits 0 text) }

abbrev everything : Parsed Stmt
everything = ok (delete_stmt (record { table_name = codes "t"; where_clause = no_expr })) []

-- The lexer's error at `?` is not reported, and hides the WHERE clause.
lexical_error : parse (tokens readers (codes "DELETE FROM t ? WHERE id = 1")) ≡ everything
unfolding parse tokens str_equal
lexical_error = refl

precedence :
    parse_expression 9 (tokens readers (codes "a = 1 + 2 * 3 AND b"))
    ≡ ok
        (binary and_op
          (binary eq_op (column_ref [] (codes "a")) (
            binary add_op
              (literal (int_value 1))
              (binary mul_op (literal (int_value 2)) (literal (int_value 3)))))
          (column_ref [] (codes "b")))
        []
unfolding parse_expression tokens str_equal
precedence = refl

abbrev misspelt : Tokens
misspelt = name_token (codes "WERE") ∷ name_token (codes "id") ∷ []

parse-delete_all_example :
    parse (word TokenType.delete_kw ∷ word TokenType.from_kw ∷ name_token (codes "t") ∷ misspelt)
    ≡ ok (delete_stmt (record { table_name = codes "t"; where_clause = no_expr })) misspelt
unfolding check
parse-delete_all_example = parse-delete_all (codes "t") misspelt refl

parse_all-ReadsAll_example :
    Within 1
      (length (tokens readers (codes "DELETE FROM t;")))
      (parse (tokens readers (codes "DELETE FROM t;")))
    × ReadsAll (parse_all (tokens readers (codes "DELETE FROM t;")))
parse_all-ReadsAll_example = parse_all-ReadsAll (tokens readers (codes "DELETE FROM t;"))

-- a - (b - 1) AND NOT c IN (1, 2), in front of ORDER.
abbrev mixed : Expr
mixed =
    binary and_op
      (binary sub_op (column_ref [] (codes "a"))
        (binary sub_op (column_ref [] (codes "b")) (literal (int_value 1))))
      (unary not_op (
        in_expr (column_ref [] (codes "c"))
          (more_exprs (literal (int_value 1)) (more_exprs (literal (int_value 2)) no_exprs)) false))

parse_expression-write_example :
    parse_expression 30 (write mixed (word TokenType.order_kw ∷ []))
    ≡ ok mixed (word TokenType.order_kw ∷ [])
unfolding write tightness IsWritable
parse_expression-write_example =
    parse_expression-write mixed 30 (word TokenType.order_kw ∷ []) (omega arith) (omega arith)
      (omega arith)
