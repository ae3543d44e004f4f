-- ===== src/Parser/Statements/Progress.antt =====
-- The statements of src/parser/parser.cpp take a token at least, so that no loop runs out of fuel, and
-- `parseAll` reads to the end.
use seeddb.Base.{ℕ, zero, suc, ◌≤◌, ◌<◌, ◌≡◌, [], ◌∷◌, length, refl, arith}
use seeddb.Parser.Token.{TokenType}
use seeddb.Parser.Ast.{Expr}
use seeddb.Parser.Stream.{Tokens, Parsed, ok, syntax_error, no_fuel, P, and_then, pure, accept}
use seeddb.Parser.Stream.Progress.{
  Within, Uses, Within-weaken, also, later, loosen, pure-Uses, fail-Uses, accept-Uses, require-Uses,
  require_name-Uses, by_bool, comma_list-Uses,
}
use seeddb.Parser.Expressions.Progress.{optional_clause-Uses, parse_expression-Uses}
use seeddb.Parser.Statements.{
  Stmt, parse_create_table, if_exists_clause, parse_drop_table, parse_select, insert_columns,
  parse_insert, parse_assignment, parse_update, parse_delete, statement_of, parse_statement, parse,
  parse_all_loop, parse_all,
}
use seeddb.Parser.Statements.Columns.Progress.{column_list-Uses}
use seeddb.Parser.Statements.Sources.Progress.{parse_table_ref-Uses, parse_joins-Uses}
use seeddb.Parser.Statements.Clauses.Progress.{
  limit_clause-Uses, by_clause-Uses, parse_columns-Uses, parse_order_by_item-Uses,
}

parse_create_table-Uses : {f : ℕ} → Uses 1 f parse_create_table
unfolding parse_create_table
parse_create_table-Uses = also (require-Uses TokenType.create_kw) λ t. loosen (
    also (require-Uses TokenType.table_kw) λ t. loosen (
      also require_name-Uses λ name. loosen (
        also (require-Uses TokenType.lparen) λ t.
          later column_list-Uses
            λ columns. loosen (also (require-Uses TokenType.rparen) λ t. pure-Uses))))

if_exists_clause-Uses : {f : ℕ} → Uses 0 f if_exists_clause
unfolding if_exists_clause
if_exists_clause-Uses = later (accept-Uses TokenType.if_kw) λ present.
    by_bool present (loosen (also (require-Uses TokenType.exists_kw) λ t. pure-Uses)) pure-Uses

parse_drop_table-Uses : {f : ℕ} → Uses 1 f parse_drop_table
unfolding parse_drop_table
parse_drop_table-Uses = also (require-Uses TokenType.drop_kw) λ t. loosen (
    also (require-Uses TokenType.table_kw)
      λ t. later if_exists_clause-Uses λ b. loosen (also require_name-Uses λ name. pure-Uses))

insert_columns-Uses : {f : ℕ} → Uses 0 f insert_columns
unfolding insert_columns
insert_columns-Uses = later (accept-Uses TokenType.lparen) λ present.
    by_bool present
      (loosen (
        also (comma_list-Uses require_name-Uses)
          λ columns. loosen (also (require-Uses TokenType.rparen) λ t. pure-Uses)))
      pure-Uses

module _ {f : ℕ} {expr : P Expr} (u : Uses 1 f expr) where
  parse_select-Uses : Uses 1 f (parse_select expr)
  unfolding parse_select
  parse_select-Uses = also (require-Uses TokenType.select_kw) λ t.
      later (accept-Uses TokenType.distinct_kw) λ d. later (parse_columns-Uses u) λ columns.
        loosen (
          also (require-Uses TokenType.from_kw) λ t. loosen (
            also parse_table_ref-Uses λ table. later (parse_joins-Uses u) λ joins.
              later (optional_clause-Uses u TokenType.where_kw) λ w.
                later (by_clause-Uses TokenType.group_kw u) λ g.
                  later (optional_clause-Uses u TokenType.having_kw) λ h.
                    later (by_clause-Uses TokenType.order_kw (parse_order_by_item-Uses u))
                      λ o. later limit_clause-Uses λ l. pure-Uses))

  parse_insert-Uses : Uses 1 f (parse_insert expr)
  unfolding parse_insert
  parse_insert-Uses = also (require-Uses TokenType.insert_kw) λ t. loosen (
      also (require-Uses TokenType.into_kw) λ t. loosen (
        also require_name-Uses λ name. later insert_columns-Uses λ columns. loosen (
          also (require-Uses TokenType.values_kw) λ t. loosen (
            also (require-Uses TokenType.lparen) λ t. loosen (
              also (comma_list-Uses u)
                λ values. loosen (also (require-Uses TokenType.rparen) λ t. pure-Uses))))))

  parse_update-Uses : Uses 1 f (parse_update expr)
  unfolding parse_update parse_assignment
  parse_update-Uses = also (require-Uses TokenType.update_kw) λ t. loosen (
      also require_name-Uses λ name. loosen (
        also (require-Uses TokenType.set_kw) λ t. loosen (
          also
            (comma_list-Uses (
              also require_name-Uses λ col.
                loosen (also (require-Uses TokenType.eq) λ t. loosen (also u λ value. pure-Uses))))
            λ assignments. later (optional_clause-Uses u TokenType.where_kw) λ w. pure-Uses)))

  parse_delete-Uses : Uses 1 f (parse_delete expr)
  unfolding parse_delete
  parse_delete-Uses = also (require-Uses TokenType.delete_kw) λ t. loosen (
      also (require-Uses TokenType.from_kw) λ t. loosen (
        also require_name-Uses
          λ name. later (optional_clause-Uses u TokenType.where_kw) λ w. pure-Uses))

  statement_of-Uses : (type : TokenType) → Uses 1 f (statement_of expr type)
  unfolding statement_of
  statement_of-Uses TokenType.create_kw = parse_create_table-Uses
  statement_of-Uses TokenType.drop_kw = parse_drop_table-Uses
  statement_of-Uses TokenType.select_kw = parse_select-Uses
  statement_of-Uses TokenType.insert_kw = parse_insert-Uses
  statement_of-Uses TokenType.update_kw = parse_update-Uses
  statement_of-Uses TokenType.delete_kw = parse_delete-Uses
  statement_of-Uses _ = fail-Uses Stmt

  parse_statement-Within :
      (ts : Tokens) → length ts < f → Within 1 (length ts) (parse_statement expr ts)
  unfolding parse_statement
  parse_statement-Within [] lt = tt
  parse_statement-Within (t ∷ ts) lt = (statement_of-Uses t.type).within (t ∷ ts) lt

parse-Uses : {f : ℕ} → Uses 1 f parse
unfolding parse
parse-Uses = record {
  within =
      λ ts lt. parse_statement-Within (parse_expression-Uses (suc (length ts))) ts (omega arith);
}

-- `parseAll` has read all tokens when it gives statements.
abbrev pub ReadsAll : {A : Type 0} → Parsed A → Type 0
ReadsAll (ok a rest) = rest ≡ []
ReadsAll syntax_error = Unit
ReadsAll no_fuel = ⊥

ReadsAll-and_then :
    {A B : Type 0} (n : ℕ) (r : Parsed A) (g : A → P B)
    → Within 0 n r
    → ((a : A) (rest : Tokens) → length rest ≤ n → ReadsAll (g a rest))
    → ReadsAll (and_then r g)
ReadsAll-and_then n (ok a rest) g h k = k a rest (omega arith)
ReadsAll-and_then n syntax_error g h k = tt
ReadsAll-and_then n no_fuel g h k = h

keep :
    {A B : Type 0} (r : Parsed A) (g : A → B) → ReadsAll r → ReadsAll (and_then r (λ a. pure (g a)))
keep (ok a rest) g h = h
keep syntax_error g h = tt
keep no_fuel g h = h

parse_all_loop-ReadsAll : (n : ℕ) (ts : Tokens) → length ts < n → ReadsAll (parse_all_loop n ts)
unfolding parse_all_loop
parse_all_loop-ReadsAll zero ts lt = absurd (omega arith)
parse_all_loop-ReadsAll (suc n) [] lt = refl
parse_all_loop-ReadsAll (suc n) (t ∷ ts) lt =
    ReadsAll-and_then (length ts) (parse (t ∷ ts)) _
      (Within-weaken 0 1 (suc (length ts)) (length ts) (parse (t ∷ ts)) (omega arith)
        ((parse-Uses {f = suc (suc (length ts))}).within (t ∷ ts) (omega arith)))
      λ stmt rest le.
        ReadsAll-and_then (length rest) (accept TokenType.semicolon rest) _
          ((accept-Uses {f = suc (length rest)} TokenType.semicolon).within rest (omega arith))
          λ has left le'.
            keep (parse_all_loop n left) (λ stmts. stmt ∷ stmts)
              (parse_all_loop-ReadsAll n left (omega arith))

-- The parser ends for every list of tokens: `parse` gives a syntax error or a statement for which it
-- took a token at least, and `parseAll` a syntax error or statements with no token left.
pub parse_all-ReadsAll : (ts : Tokens) → Within 1 (length ts) (parse ts) × ReadsAll (parse_all ts)
unfolding parse_all
parse_all-ReadsAll ts = (
  (parse-Uses {f = suc (length ts)}).within ts (omega arith),
  parse_all_loop-ReadsAll (suc (length ts)) ts (omega arith),
)
