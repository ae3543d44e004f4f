-- ===== src/Parser/Statements/Sources/Progress.antt =====
-- Tables and joins of src/parser/parser.cpp: each takes a token, so that the loops over them end by
-- their own tests.
use seeddb.Base.{ℕ, zero, suc, ◌≤◌, Bool, true, false, length, arith, Bool-cases, inl, inr}
use seeddb.Parser.Token.{TokenType}
use seeddb.Parser.Ast.{Expr, OptExpr}
use seeddb.Parser.Stream.{P, pure, check}
use seeddb.Parser.Stream.Progress.{
  Within, Uses, first, also, later, loosen, fewer, pure-Uses, fail-Uses, accept-Uses, require-Uses,
  require_name-Uses, by_bool,
}
use seeddb.Parser.Expressions.Loops.Progress.{op-Within}
use seeddb.Executor.Joins.{JoinType, cross, inner, left_outer, right_outer}
use seeddb.Parser.Statements.Sources.{
  optional_alias, parse_table_ref, comma_tables, join_ops, parse_join_type, join_condition,
  parse_join_clause, starts_join, join_loop, parse_joins,
}

pub optional_alias-Uses : {f : ℕ} → Uses 0 f optional_alias
unfolding optional_alias
optional_alias-Uses {f} = later (accept-Uses TokenType.as_kw) λ has.
    by_bool has (loosen require_name-Uses) (record {
      within = λ ts lt. elim (Bool-cases (check TokenType.identifier ts)) [
        | inl e ↦ rw (e, Within) ((loosen {f = f} require_name-Uses).within ts lt)
        | inr e ↦ rw (e, Within) (omega arith)
      ];
    })

pub parse_table_ref-Uses : {f : ℕ} → Uses 1 f parse_table_ref
unfolding parse_table_ref
parse_table_ref-Uses = also require_name-Uses λ name. later optional_alias-Uses λ alias. pure-Uses

comma_tables-Uses : (n : ℕ) → Uses 0 n (comma_tables n)
unfolding comma_tables
comma_tables-Uses zero = record { within = λ ts lt. absurd (omega arith) }
comma_tables-Uses (suc n) = later (accept-Uses TokenType.comma) λ more.
    by_bool more
      (loosen (first parse_table_ref-Uses λ table. later (comma_tables-Uses n) λ joins. pure-Uses))
      pure-Uses

parse_join_type-Uses : {f : ℕ} → Uses 0 f parse_join_type
unfolding parse_join_type
parse_join_type-Uses = record {
  within = λ ts lt.
      op-Within join_ops ts (pure inner) (λ type. pure type) (omega arith)
        λ type rest shorter. omega arith;
}

module _ {f : ℕ} {expr : P Expr} (u : Uses 1 f expr) where
  join_condition-Uses :
      (type : JoinType) (has_on : Bool) → Uses 0 f (join_condition expr type has_on)
  unfolding join_condition
  join_condition-Uses cross true = fail-Uses OptExpr
  join_condition-Uses cross false = pure-Uses
  join_condition-Uses inner true = loosen (also u λ e. pure-Uses)
  join_condition-Uses inner false = fail-Uses OptExpr
  join_condition-Uses left_outer true = loosen (also u λ e. pure-Uses)
  join_condition-Uses left_outer false = fail-Uses OptExpr
  join_condition-Uses right_outer true = loosen (also u λ e. pure-Uses)
  join_condition-Uses right_outer false = fail-Uses OptExpr

  parse_join_clause-Uses : Uses 1 f (parse_join_clause expr)
  unfolding parse_join_clause
  parse_join_clause-Uses = later parse_join_type-Uses λ type.
      also (require-Uses TokenType.join_kw) λ t. loosen (
        also parse_table_ref-Uses λ table.
          later (accept-Uses TokenType.on_kw)
            λ has_on. later (join_condition-Uses type has_on) λ condition. pure-Uses)

  join_loop-Uses : (n : ℕ) → n ≤ f → Uses 0 n (join_loop expr n)
  unfolding join_loop
  join_loop-Uses zero le = record { within = λ ts lt. absurd (omega arith) }
  join_loop-Uses (suc n) le = record {
    within = λ ts lt. elim (Bool-cases (starts_join ts)) [
      | inl e ↦
          rw (e, Within)
            ((loosen (
                first (fewer le parse_join_clause-Uses)
                  λ join. later (join_loop-Uses n (omega arith)) λ joins. pure-Uses)).within
              ts lt)
      | inr e ↦ rw (e, Within) (omega arith)
    ];
  }

  pub parse_joins-Uses : Uses 0 f (parse_joins expr)
  unfolding parse_joins
  parse_joins-Uses =
      later
        (record { within = λ ts lt. (comma_tables-Uses (suc (length ts))).within ts (omega arith) })
        λ tables.
          later
            (record {
              within =
                  λ ts lt. (join_loop-Uses (suc (length ts)) (omega arith)).within ts (omega arith);
            })
            λ joins. pure-Uses
