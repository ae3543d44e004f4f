-- ===== src/Executor/Operators.antt =====
-- The operators of `Executor::evaluateExpr` of src/executor/executor.cpp on the values of their
-- operands. Signed overflow, which C++ leaves undefined, wraps.
use seeddb.Base.{
  ℕ, Bool, true, false, not, ◌+◌, ◌*◌, ◌-◌, ◌%◌, ◌/◌, ◌^◌, ltb, ◌==◌, ◌&&◌, ◌||◌, if◌then◌else◌,
  sub32,
}
use seeddb.Common.LogicalType.{LogicalTypeId, integer, bigint, float, double, varchar, is_numeric}
use seeddb.Common.Value.{
  Value, null_value, integer_value, bigint_value, float_value, double_value, boolean_value, is_null,
  as_int32, as_int64, as_float, as_double, as_bool, equals, less_than,
}
use seeddb.Common.Numerics.{Numerics}
use seeddb.Executor.Like.{match_like_pattern}
use seeddb.Parser.Token.{TokenValue}
use seeddb.Parser.Ast.{
  BinaryOp, or_op, and_op, eq_op, ne_op, bang_eq_op, lt_op, gt_op, le_op, ge_op, add_op, sub_op,
  mul_op, div_op, UnaryOp, not_op, neg_op, plus_op,
}

-- EXPR_LITERAL
unfoldable pub literal_value : TokenValue → Value
literal_value TokenValue.no_value = null_value
literal_value (TokenValue.int_value v) = bigint_value v
literal_value (TokenValue.float_value v) = double_value v
literal_value (TokenValue.string_value s) = record { type = varchar; bits = 0; str = s }
literal_value (TokenValue.bool_value b) = boolean_value b

-- `op == "AND"`
unfoldable pub and_values : Value → Value → Value
and_values l r =
    if is_null l || is_null r then null_value else boolean_value (as_bool l && as_bool r)

-- `op == "OR"`
unfoldable pub or_values : Value → Value → Value
or_values l r =
    if is_null l && is_null r
    then null_value
    else if is_null l
    then boolean_value (as_bool r)
    else if is_null r
    then boolean_value (as_bool l)
    else boolean_value (as_bool l || as_bool r)

-- `is_negated ? !b : b`
abbrev pub negate_if : Bool → Bool → Bool
negate_if negated b = if negated then not b else b

-- EXPR_LIKE
unfoldable pub like_value : Value → Value → Bool → Value
unfolding is_null
like_value str pattern negated =
    if is_null str || is_null pattern
    then null_value
    else boolean_value (negate_if negated (match_like_pattern str.str pattern.str))

-- The sign and the size of a two's complement `int32_t`, and its division, which truncates.
abbrev is_negative32 : ℕ → Bool
is_negative32 w = not (ltb w (2 ^ 31))

abbrev magnitude32 : ℕ → ℕ
magnitude32 w = if ltb w (2 ^ 31) then w else 2 ^ 32 - w

unfoldable pub div32 : ℕ → ℕ → ℕ
div32 a b =
    let q = magnitude32 a / magnitude32 b in
    if is_negative32 a
    then if is_negative32 b then q % 2 ^ 32 else (2 ^ 32 - q) % 2 ^ 32
    else if is_negative32 b
    then (2 ^ 32 - q) % 2 ^ 32
    else q

-- Two `INTEGER`s; the other operators go on to the doubles, which have no result for them.
unfoldable pub int_arithmetic : BinaryOp → ℕ → ℕ → Value
unfolding div32
int_arithmetic add_op l r = integer_value ((l + r) % 2 ^ 32)
int_arithmetic sub_op l r = integer_value (sub32 l r)
int_arithmetic mul_op l r = integer_value (l * r % 2 ^ 32)
int_arithmetic div_op l r = if r == 0 then null_value else integer_value (div32 l r)
int_arithmetic _ l r = null_value

abbrev pub both_integers : LogicalTypeId → LogicalTypeId → Bool
both_integers integer integer = true
both_integers _ _ = false

module _ (num : Numerics) where
  -- `to_double`
  unfoldable pub double_at : LogicalTypeId → Value → ℕ
  double_at integer v = num.of_int32 (as_int32 v)
  double_at bigint v = num.of_int64 (as_int64 v)
  double_at float v = num.of_float (as_float v)
  double_at double v = as_double v
  double_at _ v = 0

  unfoldable pub to_double : Value → ℕ
  unfolding double_at
  to_double v = double_at v.type v

  unfoldable pub double_arithmetic : BinaryOp → ℕ → ℕ → Value
  double_arithmetic add_op l r = double_value (num.add64 l r)
  double_arithmetic sub_op l r = double_value (num.sub64 l r)
  double_arithmetic mul_op l r = double_value (num.mul64 l r)
  double_arithmetic div_op l r =
      if num.tests.eq64 r 0 then null_value else double_value (num.div64 l r)
  double_arithmetic _ l r = null_value

  unfoldable pub arithmetic : BinaryOp → Value → Value → Value
  unfolding int_arithmetic double_arithmetic to_double
  arithmetic op l r =
      if both_integers l.type r.type
      then int_arithmetic op (as_int32 l) (as_int32 r)
      else double_arithmetic op (to_double l) (to_double r)

  -- A comparison: as doubles if both operands are numbers, else by `Value`'s own tests.
  abbrev pub compare_by : (ℕ → ℕ → Bool) → (Value → Value → Bool) → Value → Value → Value
  compare_by on_doubles on_values l r =
      if is_numeric l.type && is_numeric r.type
      then boolean_value (on_doubles (to_double l) (to_double r))
      else boolean_value (on_values l r)

  -- The operators after AND and OR, on operands that are not NULL.
  unfoldable pub strict_binary : BinaryOp → Value → Value → Value
  unfolding arithmetic is_numeric
  strict_binary eq_op l r = compare_by num.tests.eq64 (equals num.tests) l r
  strict_binary ne_op l r =
      compare_by (λ x y. not (num.tests.eq64 x y)) (λ a b. not (equals num.tests a b)) l r
  strict_binary bang_eq_op l r =
      compare_by (λ x y. not (num.tests.eq64 x y)) (λ a b. not (equals num.tests a b)) l r
  strict_binary lt_op l r = compare_by num.tests.lt64 (less_than num.tests) l r
  strict_binary gt_op l r =
      compare_by (λ x y. num.tests.lt64 y x) (λ a b. less_than num.tests b a) l r
  strict_binary le_op l r =
      compare_by num.le64 (λ a b. less_than num.tests a b || equals num.tests a b) l r
  strict_binary ge_op l r =
      compare_by (λ x y. num.le64 y x) (λ a b. less_than num.tests b a || equals num.tests a b) l r
  strict_binary op l r = arithmetic op l r

  -- EXPR_BINARY
  unfoldable pub binary_value : BinaryOp → Value → Value → Value
  unfolding and_values or_values strict_binary is_null
  binary_value and_op l r = and_values l r
  binary_value or_op l r = or_values l r
  binary_value op l r = if is_null l || is_null r then null_value else strict_binary op l r

  -- `-operand`, by the operand's type.
  unfoldable pub negated_at : LogicalTypeId → Value → Value
  negated_at integer v = integer_value ((2 ^ 32 - as_int32 v) % 2 ^ 32)
  negated_at bigint v = bigint_value ((2 ^ 64 - as_int64 v) % 2 ^ 64)
  negated_at float v = float_value (num.neg32 (as_float v))
  negated_at double v = double_value (num.neg64 (as_double v))
  negated_at _ v = null_value

  -- EXPR_UNARY
  unfoldable pub unary_value : UnaryOp → Value → Value
  unfolding negated_at is_null
  unary_value not_op v = if is_null v then null_value else boolean_value (not (as_bool v))
  unary_value neg_op v = if is_null v then null_value else negated_at v.type v
  unary_value plus_op v = v

  -- EXPR_BETWEEN
  unfoldable pub between_value : Value → Value → Value → Bool → Value
  unfolding is_null
  between_value v low high negated =
      if is_null v || is_null low || is_null high
      then null_value
      else boolean_value
          (negate_if negated (not (less_than num.tests v low) && not (less_than num.tests high v)))

  -- EXPR_NULLIF
  unfoldable pub nullif_value : Value → Value → Value
  unfolding is_null
  nullif_value a b =
      if not (is_null a) && not (is_null b) && equals num.tests a b then null_value else a
