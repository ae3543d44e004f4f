-- ===== src/Executor/Eval/Predicates.antt =====
-- `Executor::evaluateExpr` and `evaluateWhereClause` of src/executor/executor.cpp on predicates: their
-- types, and what a WHERE clause makes of AND, OR and NOT.
use seeddb.Base.{not, ◌&&◌, ◌||◌, ◌≡◌, refl, arith, if◌then◌else◌, ◌⊎◌, inl, inr}
use seeddb.Common.LogicalType.{
  LogicalTypeId, sql_null, integer, bigint, float, double, varchar, boolean, unknown,
}
use seeddb.Common.Value.{Value, is_null, as_bool, boolean_value, null_value}
use seeddb.Common.Numerics.{Numerics}
use seeddb.Storage.Schema.{Row, Schema}
use seeddb.Parser.Ast.{
  Expr, literal, column_ref, binary, unary, is_null_expr, aggregate, case_expr, in_expr,
  between_expr, like_expr, coalesce, nullif, function_call, an_expr, BinaryOp, or_op, and_op,
  add_op, sub_op, concat_op, mul_op, div_op, mod_op, UnaryOp, not_op, neg_op, plus_op,
}
use seeddb.Executor.Operators.{
  and_values, or_values, strict_binary, binary_value, unary_value, between_value, like_value,
}
use seeddb.Executor.Eval.{evaluate, holds, where_holds}

-- NULL or a Boolean.
abbrev pub IsTruth : LogicalTypeId → Type 0
IsTruth sql_null = Unit
IsTruth boolean = Unit
IsTruth _ = ⊥

-- The operators that answer by a truth value.
abbrev pub IsTest : BinaryOp → Type 0
IsTest add_op = ⊥
IsTest sub_op = ⊥
IsTest concat_op = ⊥
IsTest mul_op = ⊥
IsTest div_op = ⊥
IsTest mod_op = ⊥
IsTest _ = Unit

abbrev pub IsNegation : UnaryOp → Type 0
IsNegation not_op = Unit
IsNegation _ = ⊥

abbrev pub IsPredicate : Expr → Type 0
IsPredicate (binary op l r) = IsTest op
IsPredicate (unary op e) = IsNegation op
IsPredicate (is_null_expr e negated) = Unit
IsPredicate (in_expr e values negated) = Unit
IsPredicate (between_expr e low high negated) = Unit
IsPredicate (like_expr str pattern negated) = Unit
IsPredicate _ = ⊥

IsTruth-cases : (t : LogicalTypeId) → IsTruth t → (t ≡ sql_null) ⊎ (t ≡ boolean)
IsTruth-cases sql_null h = inl refl
IsTruth-cases boolean h = inr refl
IsTruth-cases integer h = absurd h
IsTruth-cases bigint h = absurd h
IsTruth-cases float h = absurd h
IsTruth-cases double h = absurd h
IsTruth-cases varchar h = absurd h
IsTruth-cases (unknown n) h = absurd h

holds-connectives :
    (l r : Value)
    → (l.type ≡ sql_null) ⊎ (l.type ≡ boolean)
    → (r.type ≡ sql_null) ⊎ (r.type ≡ boolean)
    → (holds (and_values l r) ≡ (holds l && holds r))
      × (holds (or_values l r) ≡ (holds l || holds r))
      × (holds (if is_null l then null_value else boolean_value (not (as_bool l)))
          ≡ (not (is_null l) && not (holds l)))
unfolding holds and_values or_values is_null
holds-connectives l r (inl a) (inl b) = ground arith
holds-connectives l r (inl a) (inr b) = ground arith
holds-connectives l r (inr a) (inl b) = ground arith
holds-connectives l r (inr a) (inr b) = ground arith

module _ (num : Numerics) where
  binary-IsTruth :
      (op : BinaryOp) (l r : Value) → IsTest op → IsTruth (binary_value num op l r).type
  unfolding binary_value and_values or_values strict_binary
  binary-IsTruth add_op l r h = absurd h
  binary-IsTruth sub_op l r h = absurd h
  binary-IsTruth concat_op l r h = absurd h
  binary-IsTruth mul_op l r h = absurd h
  binary-IsTruth div_op l r h = absurd h
  binary-IsTruth mod_op l r h = absurd h
  binary-IsTruth _ l r h = ground arith

  -- A predicate, that is AND, OR, NOT, a comparison, IS NULL, IN, BETWEEN or LIKE, evaluates to NULL or
  -- to a Boolean, whatever the types of its operands are.
  evaluate-IsTruth :
      (schema : Schema) (row : Row) (e : Expr)
      → IsPredicate e
      → IsTruth (evaluate num schema row e).type
  unfolding evaluate unary_value between_value like_value
  evaluate-IsTruth schema row (binary op l r) h = binary-IsTruth op _ _ h
  evaluate-IsTruth schema row (unary not_op e) h = ground arith
  evaluate-IsTruth schema row (unary neg_op e) h = absurd h
  evaluate-IsTruth schema row (unary plus_op e) h = absurd h
  evaluate-IsTruth schema row (is_null_expr e negated) h = tt
  evaluate-IsTruth schema row (in_expr e values negated) h = ground arith
  evaluate-IsTruth schema row (between_expr e low high negated) h = ground arith
  evaluate-IsTruth schema row (like_expr str pattern negated) h = ground arith
  evaluate-IsTruth schema row (literal v) h = absurd h
  evaluate-IsTruth schema row (column_ref t c) h = absurd h
  evaluate-IsTruth schema row (aggregate t a s d) h = absurd h
  evaluate-IsTruth schema row (case_expr w e) h = absurd h
  evaluate-IsTruth schema row (coalesce es) h = absurd h
  evaluate-IsTruth schema row (nullif a b) h = absurd h
  evaluate-IsTruth schema row (function_call f es) h = absurd h

  abbrev pub ConnectivesOutcome : Schema → Row → Expr → Expr → Type 0
  ConnectivesOutcome schema row l r =
      (where_holds num schema row (an_expr (binary and_op l r))
        ≡ (where_holds num schema row (an_expr l) && where_holds num schema row (an_expr r)))
      × (where_holds num schema row (an_expr (binary or_op l r))
          ≡ (where_holds num schema row (an_expr l) || where_holds num schema row (an_expr r)))
      × (where_holds num schema row (an_expr (unary not_op l)) ≡ (
          not (is_null (evaluate num schema row l))
          && not (where_holds num schema row (an_expr l))))

  -- In a WHERE clause AND and OR of predicates are the Boolean operations on whether each part holds,
  -- also where a part is NULL; NOT holds if its part does not and is not NULL.
  pub where_holds-connectives :
      (schema : Schema) (row : Row) (l r : Expr)
      → IsPredicate l
      → IsPredicate r
      → ConnectivesOutcome schema row l r
  unfolding where_holds evaluate binary_value unary_value
  where_holds-connectives schema row l r hl hr =
      holds-connectives (evaluate num schema row l) (evaluate num schema row r)
        (IsTruth-cases _ (evaluate-IsTruth schema row l hl))
        (IsTruth-cases _ (evaluate-IsTruth schema row r hr))
