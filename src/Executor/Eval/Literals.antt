-- ===== src/Executor/Eval/Literals.antt =====
-- Integer literals in `Executor::evaluateExpr` of src/executor/executor.cpp: `=` compares numbers of
-- different types as doubles, and IN and BETWEEN compare their types first.
use seeddb.Base.{ℕ, List, [], ◌∷◌, Bool, false, ◌≡◌, refl, arith}
use seeddb.Common.LogicalType.{integer}
use seeddb.Common.Value.{Value, boolean_value, equals, less_than, as_int32}
use seeddb.Common.Numerics.{Numerics}
use seeddb.Storage.Schema.{Row, Schema}
use seeddb.Parser.Token.{TokenValue}
use seeddb.Parser.Ast.{
  Expr, literal, binary, eq_op, in_expr, between_expr, Exprs, no_exprs, more_exprs,
}
use seeddb.Executor.Operators.{literal_value, between_value, binary_value, strict_binary, to_double}
use seeddb.Executor.Eval.{evaluate, evaluate_in}

abbrev pub int_literal : ℕ → Expr
int_literal n = literal (TokenValue.int_value n)

abbrev pub int_literals : List ℕ → Exprs
int_literals [] = no_exprs
int_literals (n ∷ ns) = more_exprs (int_literal n) (int_literals ns)

module _ (num : Numerics) (schema : Schema) (row : Row) where
  evaluate_in-int_literals :
      (left : Value) (ns : List ℕ)
      → left.type ≡ integer
      → evaluate_in num schema row left (int_literals ns) ≡ false
  unfolding evaluate_in evaluate literal_value equals
  evaluate_in-int_literals left [] t = refl
  evaluate_in-int_literals left (n ∷ ns) t = ground (arith, evaluate_in-int_literals left ns t)

  abbrev pub IntLiteralsOutcome : Expr → List ℕ → ℕ → ℕ → Bool → Type 0
  IntLiteralsOutcome e ns low high negated =
      (evaluate num schema row (in_expr e (int_literals ns) negated) ≡ boolean_value negated)
      × (evaluate num schema row (between_expr e (int_literal low) (int_literal high) negated)
          ≡ boolean_value negated)
      × (evaluate num schema row (binary eq_op e (int_literal low))
          ≡ boolean_value (
              num.tests.eq64 (num.of_int32 (as_int32 (evaluate num schema row e)))
                (num.of_int64 low)))

  -- Where an expression's value is an INTEGER, IN a list of integer literals is false and NOT IN true,
  -- BETWEEN two integer literals is false and NOT BETWEEN true, whatever the numbers are; but `=` with
  -- an integer literal compares the numbers as doubles.
  pub int_literals-never_in :
      (e : Expr) (ns : List ℕ) (low high : ℕ) (negated : Bool)
      → (evaluate num schema row e).type ≡ integer
      → IntLiteralsOutcome e ns low high negated
  unfolding evaluate between_value binary_value strict_binary literal_value less_than to_double
  int_literals-never_in e ns low high negated t = (
    ground (arith, evaluate_in-int_literals (evaluate num schema row e) ns t),
    ground arith,
    ground arith,
  )
