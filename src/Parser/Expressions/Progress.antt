-- ===== src/Parser/Expressions/Progress.antt =====
-- The parser of src/parser/parser.cpp takes a token for each expression, so that neither its loops nor
-- its nesting run out of fuel.
use seeddb.Base.{
  ℕ, zero, suc, ◌≤◌, ◌<◌, Bool, true, false, [], ◌∷◌, Bytes, length, arith, Bool-cases, inl, inr,
}
use seeddb.Parser.Token.{TokenType, TokenValue}
use seeddb.Parser.Ast.{Expr, binary, AggregateType, count, sum, avg, min, max}
use seeddb.Parser.Stream.{Tokens, P, ◌>>=◌, pure, fail, check, require}
use seeddb.Parser.Stream.Progress.{
  Within, Uses, Within-weaken, Within-and_then, first, also, later, loosen, fewer, pure-Uses,
  fail-Uses, accept-Uses, require-Uses, require_name-Uses, by_bool, comma_list-Uses,
}
use seeddb.Parser.Expressions.Loops.{Postfix, postfix_ops, comparison_ops}
use seeddb.Parser.Expressions.Primary.{
  when_loop, optional_clause, parse_case_expr, parse_coalesce_expr, parse_nullif_expr,
  aggregate_argument, accepts_star, parse_aggregate_expr, call_arguments, parse_name, primary_of,
  parse_primary_expr,
}
use seeddb.Parser.Expressions.{
  parse_unary_expr, parse_multiplicative_expr, parse_additive_expr, parse_between_expr,
  parse_like_expr, parse_in_expr, negatable, parse_postfix, comparison_tail, postfix_tail,
  parse_comparison_expr, parse_not_expr, parse_and_expr, parse_or_expr, parse_expression,
}
use seeddb.Parser.Expressions.Loops.Progress.{op-Within, binary_level-Uses, prefix_level-Uses}

module _ {f : ℕ} {expr : P Expr} (u : Uses 1 f expr) where
  when_loop-Uses : (n : ℕ) → n ≤ f → Uses 0 n (when_loop expr n)
  unfolding when_loop
  when_loop-Uses zero le = record { within = λ ts lt. absurd (omega arith) }
  when_loop-Uses (suc n) le = later (accept-Uses TokenType.when_kw) λ present.
      by_bool present
        (loosen (
          first (fewer le u) λ c. loosen (
            also (require-Uses TokenType.then_kw) λ t. loosen (
              also (fewer (omega arith) u)
                λ r. later (when_loop-Uses n (omega arith)) λ w. pure-Uses))))
        pure-Uses

  pub optional_clause-Uses : (keyword : TokenType) → Uses 0 f (optional_clause keyword expr)
  unfolding optional_clause
  optional_clause-Uses keyword =
      later (accept-Uses keyword)
        λ present. by_bool present (loosen (also u λ e. pure-Uses)) pure-Uses

  parse_case_expr-Uses : Uses 0 f (parse_case_expr expr)
  unfolding parse_case_expr
  parse_case_expr-Uses = record {
    within = λ ts lt.
        Within-and_then 0 0 0 (length ts) f (when_loop expr (suc (length ts)) ts) _
          ((when_loop-Uses (suc (length ts)) (omega arith)).within ts (omega arith)) (omega arith)
          (omega arith)
          (λ w.
            later (optional_clause-Uses TokenType.else_kw)
              λ els. loosen (also (require-Uses TokenType.end_kw) λ t. pure-Uses));
  }

  in_parens :
      {A : Type 0} {p : P A}
      → Uses 0 f p
      → {B : Type 0} (g : A → B)
      → Uses 0 f (
          require TokenType.lparen >>= λ t. p >>= λ a. require TokenType.rparen >>= λ t. pure (g a))
  in_parens v g = loosen (
      also (require-Uses TokenType.lparen)
        λ t. later v λ a. loosen (also (require-Uses TokenType.rparen) λ t. pure-Uses))

  parse_coalesce_expr-Uses : Uses 0 f (parse_coalesce_expr expr)
  unfolding parse_coalesce_expr
  parse_coalesce_expr-Uses = in_parens (loosen (comma_list-Uses u)) _

  parse_nullif_expr-Uses : Uses 0 f (parse_nullif_expr expr)
  unfolding parse_nullif_expr
  parse_nullif_expr-Uses = loosen (
      also (require-Uses TokenType.lparen) λ t. loosen (
        also u λ a. loosen (
          also (require-Uses TokenType.comma) λ t.
            loosen (also u λ b. loosen (also (require-Uses TokenType.rparen) λ t. pure-Uses)))))

  aggregate_argument-Uses : (type : AggregateType) → Uses 0 f (aggregate_argument type expr)
  unfolding aggregate_argument
  aggregate_argument-Uses type =
      later (accept-Uses TokenType.distinct_kw)
        λ d. loosen (also u λ a. loosen (also (require-Uses TokenType.rparen) λ t. pure-Uses))

  accepts_star-Uses : (type : AggregateType) → Uses 0 f (accepts_star type)
  unfolding accepts_star
  accepts_star-Uses count = accept-Uses TokenType.star
  accepts_star-Uses _ = pure-Uses

  parse_aggregate_expr-Uses : (type : AggregateType) → Uses 0 f (parse_aggregate_expr type expr)
  unfolding parse_aggregate_expr
  parse_aggregate_expr-Uses type = loosen (
      also (require-Uses TokenType.lparen) λ t. later (accepts_star-Uses type) λ is_star.
        by_bool is_star (loosen (also (require-Uses TokenType.rparen) λ t. pure-Uses))
          (aggregate_argument-Uses type))

  call_arguments-Uses : Uses 0 f (call_arguments expr)
  unfolding call_arguments
  call_arguments-Uses = record {
    within = λ ts lt. elim (Bool-cases (check TokenType.rparen ts)) [
      | inl e ↦ rw (e, Within) (omega arith)
      | inr e ↦ rw (e, Within) ((loosen (also (comma_list-Uses u) λ args. pure-Uses)).within ts lt)
    ];
  }

  parse_name-Uses : (name : Bytes) → Uses 0 f (parse_name expr name)
  unfolding parse_name
  parse_name-Uses name = later (accept-Uses TokenType.lparen) λ is_call.
      by_bool is_call
        (later call_arguments-Uses
          λ args. loosen (also (require-Uses TokenType.rparen) λ t. pure-Uses))
        (later (accept-Uses TokenType.dot)
          λ q. by_bool q (loosen (also require_name-Uses λ col. pure-Uses)) pure-Uses)

  primary_of-Uses : (type : TokenType) (value : TokenValue) → Uses 0 f (primary_of expr type value)
  unfolding primary_of
  primary_of-Uses TokenType.case_kw value = parse_case_expr-Uses
  primary_of-Uses TokenType.coalesce_kw value = parse_coalesce_expr-Uses
  primary_of-Uses TokenType.nullif_kw value = parse_nullif_expr-Uses
  primary_of-Uses TokenType.count_kw value = parse_aggregate_expr-Uses count
  primary_of-Uses TokenType.sum_kw value = parse_aggregate_expr-Uses sum
  primary_of-Uses TokenType.avg_kw value = parse_aggregate_expr-Uses avg
  primary_of-Uses TokenType.min_kw value = parse_aggregate_expr-Uses min
  primary_of-Uses TokenType.max_kw value = parse_aggregate_expr-Uses max
  primary_of-Uses TokenType.integer_lit value = pure-Uses
  primary_of-Uses TokenType.float_lit value = pure-Uses
  primary_of-Uses TokenType.string_lit value = pure-Uses
  primary_of-Uses TokenType.true_lit value = pure-Uses
  primary_of-Uses TokenType.false_lit value = pure-Uses
  primary_of-Uses TokenType.null_lit value = pure-Uses
  primary_of-Uses TokenType.lparen value =
      loosen (also u λ e. loosen (also (require-Uses TokenType.rparen) λ t. pure-Uses))
  primary_of-Uses TokenType.identifier value = parse_name-Uses _
  primary_of-Uses _ value = fail-Uses Expr

  primary-Within :
      (ts : Tokens) → length ts < suc f → Within 1 (length ts) (parse_primary_expr expr ts)
  unfolding parse_primary_expr
  primary-Within [] lt = tt
  primary-Within (t ∷ ts) lt =
      Within-weaken 1 0 (length ts) (suc (length ts)) (primary_of expr t.type t.value ts)
        (omega arith) ((primary_of-Uses t.type t.value).within ts (omega arith))

  pub parse_primary_expr-Uses : Uses 1 (suc f) (parse_primary_expr expr)
  parse_primary_expr-Uses = record { within = primary-Within }

  parse_additive_expr-Uses : Uses 1 (suc f) (parse_additive_expr expr)
  unfolding parse_additive_expr parse_multiplicative_expr parse_unary_expr
  parse_additive_expr-Uses =
      binary_level-Uses _ _ (binary_level-Uses _ _ (prefix_level-Uses _ _ parse_primary_expr-Uses))

  parse_between_expr-Uses :
      (left : Expr) (negated : Bool) → Uses 0 (suc f) (parse_between_expr expr left negated)
  unfolding parse_between_expr
  parse_between_expr-Uses left negated = loosen (
      also parse_additive_expr-Uses λ low. loosen (
        also (require-Uses TokenType.and_kw)
          λ t. loosen (also parse_additive_expr-Uses λ high. pure-Uses)))

  parse_like_expr-Uses :
      (left : Expr) (negated : Bool) → Uses 0 (suc f) (parse_like_expr expr left negated)
  unfolding parse_like_expr
  parse_like_expr-Uses left negated = loosen (also parse_primary_expr-Uses λ p. pure-Uses)

  parse_in_expr-Uses :
      (left : Expr) (negated : Bool) → Uses 0 (suc f) (parse_in_expr expr left negated)
  unfolding parse_in_expr
  parse_in_expr-Uses left negated = loosen (
      first (require-Uses TokenType.lparen) λ t. loosen (
        also (comma_list-Uses u)
          λ values. loosen (also (require-Uses TokenType.rparen) λ t. pure-Uses)))

  negatable-Uses :
      (left : Expr) (negated : Bool) (post : Postfix)
      → Uses 0 (suc f) (negatable expr left negated post)
  unfolding negatable
  negatable-Uses left negated Postfix.between_post = parse_between_expr-Uses left negated
  negatable-Uses left negated Postfix.like_post = parse_like_expr-Uses left negated
  negatable-Uses left negated Postfix.in_post = parse_in_expr-Uses left negated
  negatable-Uses left negated _ = fail-Uses Expr

  parse_postfix-Uses :
      (left : Expr) (post : Postfix) → Uses 0 (suc f) (parse_postfix expr left post)
  unfolding parse_postfix
  parse_postfix-Uses left Postfix.is_post =
      later (accept-Uses TokenType.not_kw)
        λ negated. loosen (also (require-Uses TokenType.null_lit) λ t. pure-Uses)
  parse_postfix-Uses left Postfix.not_post = record {
    within = λ ts lt.
        op-Within postfix_ops ts fail _ tt
          λ post rest shorter. (negatable-Uses left true post).within rest (omega arith);
  }
  parse_postfix-Uses left Postfix.between_post = negatable-Uses left false Postfix.between_post
  parse_postfix-Uses left Postfix.like_post = negatable-Uses left false Postfix.like_post
  parse_postfix-Uses left Postfix.in_post = negatable-Uses left false Postfix.in_post

  comparison_tail-Uses : (left : Expr) → Uses 0 (suc f) (comparison_tail expr left)
  unfolding comparison_tail
  comparison_tail-Uses left = record {
    within = λ ts lt. op-Within comparison_ops ts (pure left) _ (omega arith) λ op rest shorter.
        Within-and_then 1 0 0 (length rest) (suc f) (parse_additive_expr expr rest)
          (λ right. pure (binary op left right))
          (parse_additive_expr-Uses.within rest (omega arith)) (omega arith) (omega arith)
          (λ right. pure-Uses);
  }

  postfix_tail-Uses : (left : Expr) → Uses 0 (suc f) (postfix_tail expr left)
  unfolding postfix_tail
  postfix_tail-Uses left = record {
    within = λ ts lt.
        op-Within postfix_ops ts (pure left) _ (omega arith)
          λ post rest shorter. (parse_postfix-Uses left post).within rest (omega arith);
  }

  pub parse_comparison_expr-Uses : Uses 1 (suc f) (parse_comparison_expr expr)
  unfolding parse_comparison_expr
  parse_comparison_expr-Uses =
      also parse_additive_expr-Uses
        λ l. later (comparison_tail-Uses l) λ left. postfix_tail-Uses left

  parse_or_expr-Uses : Uses 1 (suc f) (parse_or_expr expr)
  unfolding parse_or_expr parse_and_expr parse_not_expr
  parse_or_expr-Uses =
      binary_level-Uses _ _
        (binary_level-Uses _ _ (prefix_level-Uses _ _ parse_comparison_expr-Uses))

-- `parseExpression` on fewer tokens than its fuel gives an expression or a syntax error, never runs out
-- of fuel, and takes a token at least for an expression.
pub parse_expression-Uses : (f : ℕ) → Uses 1 f (parse_expression f)
unfolding parse_expression
parse_expression-Uses zero = record { within = λ ts lt. absurd (omega arith) }
parse_expression-Uses (suc f) = record {
  within = λ ts lt. (parse_or_expr-Uses (parse_expression-Uses f)).within ts lt;
}
