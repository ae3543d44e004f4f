-- ===== src/Executor/Eval/Membership.antt =====
-- IN, BETWEEN and LIKE in a WHERE clause: `Executor::evaluateExpr` and `evaluateWhereClause` of
-- src/executor/executor.cpp.
use seeddb.Base.{Bool, true, false, ◌≡◌, ◌↔◌, ◌⊎◌}
use seeddb.Common.Value.{Value, is_null, equals, less_than}
use seeddb.Common.Numerics.{Numerics}
use seeddb.Storage.Schema.{Row, Schema}
use seeddb.Parser.Ast.{Expr, in_expr, between_expr, like_expr, an_expr, Exprs, no_exprs, more_exprs}
use seeddb.Executor.Like.Matches.{Matches}
use seeddb.Executor.Eval.{evaluate, where_holds}

-- A test, or its negation.
abbrev pub Answers : Bool → Type 0 → Type 0
Answers false P = P
Answers true P = ¬ P

module _ (num : Numerics) (schema : Schema) (row : Row) where
  abbrev value_of : Expr → Value
  value_of e = evaluate num schema row e

  abbrev Passes : Expr → Type 0
  Passes e = where_holds num schema row (an_expr e) ≡ true

  abbrev IsPresent : Expr → Type 0
  IsPresent e = is_null (value_of e) ≡ false

  -- A value of the list is not NULL and equals the value.
  abbrev pub IsIn : Value → Exprs → Type 0
  IsIn v no_exprs = ⊥
  IsIn v (more_exprs e es) = (IsPresent e × (equals num.tests v (value_of e) ≡ true)) ⊎ IsIn v es

  -- The value is not below the first bound, nor the second below the value.
  abbrev pub IsBetween : Value → Value → Value → Type 0
  IsBetween v low high = (less_than num.tests v low ≡ false) × (less_than num.tests high v ≡ false)

  abbrev pub TestsOutcome : Expr → Exprs → Expr → Expr → Bool → Type 0
  TestsOutcome e es low high negated =
      (Passes (in_expr e es negated) ↔ (IsPresent e × Answers negated (IsIn (value_of e) es)))
      × (Passes (between_expr e low high negated) ↔ (
          (IsPresent e × IsPresent low × IsPresent high)
          × Answers negated (IsBetween (value_of e) (value_of low) (value_of high))))
      × (Passes (like_expr e low negated) ↔ (
          (IsPresent e × IsPresent low)
          × Answers negated (Matches (value_of e).str (value_of low).str)))
