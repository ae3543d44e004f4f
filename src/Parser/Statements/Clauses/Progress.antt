-- ===== src/Parser/Statements/Clauses/Progress.antt =====
-- The clauses of SELECT in src/parser/parser.cpp take tokens from the front only, and an item of a list
-- takes one at least.
use seeddb.Base.{if_elim, leb, ◌^◌, if◌then◌else◌, ℕ, suc, [], ◌∷◌, length, arith, if◌then◌else◌}
use seeddb.Parser.Token.{TokenType}
use seeddb.Parser.Ast.{Expr}
use seeddb.Parser.Stream.{Tokens, Parsed, ok, syntax_error, P, same_type}
use seeddb.Parser.Stream.Progress.{
  Within, Uses, also, later, loosen, pure-Uses, accept-Uses, require-Uses, by_bool, comma_list-Uses,
}
use seeddb.Parser.Statements.Clauses.{
  parse_select_item, parse_columns, by_clause, parse_order_by_item, get_int, require_count,
  offset_clause, limit_clause,
}
use seeddb.Parser.Statements.Sources.Progress.{optional_alias-Uses}

require_count-Within : (ts : Tokens) → Within 1 (length ts) (require_count ts)
unfolding require_count
require_count-Within [] = tt
require_count-Within (t ∷ ts) =
    let counted : Parsed ℕ =
      if leb (2 ^ 63) (get_int t.value) then syntax_error else ok (get_int t.value) ts in
    if_elim (Within 1 (suc (length ts))) (same_type t.type TokenType.integer_lit) counted
      syntax_error
      (if_elim (Within 1 (suc (length ts))) (leb (2 ^ 63) (get_int t.value)) syntax_error
        (ok (get_int t.value) ts) tt (omega arith))
      tt

require_count-Uses : {f : ℕ} → Uses 1 f require_count
require_count-Uses = record { within = λ ts lt. require_count-Within ts }

pub limit_clause-Uses : {f : ℕ} → Uses 0 f limit_clause
unfolding limit_clause offset_clause
limit_clause-Uses = later (accept-Uses TokenType.limit_kw) λ present.
    by_bool present
      (loosen (
        also require_count-Uses λ n.
          later
            (later (accept-Uses TokenType.offset_kw)
              λ more. by_bool more (loosen (also require_count-Uses λ m. pure-Uses)) pure-Uses)
            λ offset. pure-Uses))
      pure-Uses

pub by_clause-Uses :
    {A : Type 0} {f : ℕ} {p : P A} (keyword : TokenType)
    → Uses 1 f p
    → Uses 0 f (by_clause keyword p)
unfolding by_clause
by_clause-Uses keyword u = later (accept-Uses keyword) λ present.
    by_bool present (loosen (also (require-Uses TokenType.by_kw) λ t. loosen (comma_list-Uses u)))
      pure-Uses

module _ {f : ℕ} {expr : P Expr} (u : Uses 1 f expr) where
  pub parse_columns-Uses : Uses 0 f (parse_columns expr)
  unfolding parse_columns parse_select_item
  parse_columns-Uses = later (accept-Uses TokenType.star) λ all. by_bool all pure-Uses (
      loosen (
        also (comma_list-Uses (also u λ e. later optional_alias-Uses λ a. pure-Uses))
          λ items. pure-Uses))

  pub parse_order_by_item-Uses : Uses 1 f (parse_order_by_item expr)
  unfolding parse_order_by_item
  parse_order_by_item-Uses = also u λ e.
      later (accept-Uses TokenType.desc_kw)
        λ d. by_bool d pure-Uses (later (accept-Uses TokenType.asc_kw) λ a. pure-Uses)
