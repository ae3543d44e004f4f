-- ===== src/Parser/Expressions/Writer.antt =====
-- The expressions as tokens, with no brackets but those that the precedence of the operators needs: the
-- description that the parser of src/parser/parser.cpp is compared with.
use seeddb.Base.{if◌then◌else◌, ℕ, ltb, Bool, true, false, [], ◌∷◌, Bytes, ◌≡◌}
use seeddb.Parser.Token.{
  TokenType, TokenValue, no_value, int_value, float_value, string_value, bool_value,
}
use seeddb.Parser.Ast.{
  Expr, literal, column_ref, binary, unary, is_null_expr, aggregate, case_expr, in_expr,
  between_expr, like_expr, coalesce, nullif, function_call, OptExpr, no_expr, an_expr, Exprs,
  no_exprs, more_exprs, Whens, no_whens, more_whens, BinaryOp, or_op, and_op, eq_op, ne_op,
  bang_eq_op, lt_op, gt_op, le_op, ge_op, add_op, sub_op, concat_op, mul_op, div_op, mod_op,
  UnaryOp, not_op, neg_op, plus_op, AggregateType, count, sum, avg, min, max,
}
use seeddb.Parser.Stream.{Tokens, Lexeme}

-- A token with no value.
abbrev pub word : TokenType → Lexeme
word type = record { type = type; value = no_value }

abbrev pub name_token : Bytes → Lexeme
name_token name = record { type = TokenType.identifier; value = string_value name }

abbrev pub binary_type : BinaryOp → TokenType
binary_type or_op = TokenType.or_kw
binary_type and_op = TokenType.and_kw
binary_type eq_op = TokenType.eq
binary_type ne_op = TokenType.ne
binary_type bang_eq_op = TokenType.ne
binary_type lt_op = TokenType.lt
binary_type gt_op = TokenType.gt
binary_type le_op = TokenType.le
binary_type ge_op = TokenType.ge
binary_type add_op = TokenType.plus
binary_type sub_op = TokenType.minus
binary_type concat_op = TokenType.concat
binary_type mul_op = TokenType.star
binary_type div_op = TokenType.slash
binary_type mod_op = TokenType.percent

abbrev pub unary_type : UnaryOp → TokenType
unary_type not_op = TokenType.not_kw
unary_type neg_op = TokenType.minus
unary_type plus_op = TokenType.plus

abbrev pub aggregate_type : AggregateType → TokenType
aggregate_type count = TokenType.count_kw
aggregate_type sum = TokenType.sum_kw
aggregate_type avg = TokenType.avg_kw
aggregate_type min = TokenType.min_kw
aggregate_type max = TokenType.max_kw

-- How tightly an operator binds: OR, AND, NOT, comparisons, sums, products, signs, and what needs no
-- brackets.
abbrev pub binary_rank : BinaryOp → ℕ
binary_rank or_op = 1
binary_rank and_op = 2
binary_rank add_op = 5
binary_rank sub_op = 5
binary_rank concat_op = 5
binary_rank mul_op = 6
binary_rank div_op = 6
binary_rank mod_op = 6
binary_rank _ = 4

-- The right operand of a left-associative operator binds more tightly; those of a comparison are sums.
abbrev pub left_rank : BinaryOp → ℕ
left_rank or_op = 1
left_rank and_op = 2
left_rank mul_op = 6
left_rank div_op = 6
left_rank mod_op = 6
left_rank _ = 5

abbrev pub right_rank : BinaryOp → ℕ
right_rank or_op = 2
right_rank and_op = 3
right_rank add_op = 6
right_rank sub_op = 6
right_rank concat_op = 6
right_rank mul_op = 7
right_rank div_op = 7
right_rank mod_op = 7
right_rank _ = 5

abbrev pub unary_rank : UnaryOp → ℕ
unary_rank not_op = 3
unary_rank _ = 7

abbrev pub rank : Expr → ℕ
rank (binary op a b) = binary_rank op
rank (unary op e) = unary_rank op
rank (is_null_expr e negated) = 4
rank (in_expr e values negated) = 4
rank (between_expr e low high negated) = 4
rank (like_expr e pattern_expr negated) = 4
rank _ = 8

-- What writes an expression in front of the tokens that follow it.
abbrev pub Writer : Type 0
Writer = Tokens → Tokens

abbrev pub bracket : Writer → Writer
bracket w r = word TokenType.lparen ∷ w (word TokenType.rparen ∷ r)

-- An operand, where an expression of that rank is due.
abbrev pub operand : ℕ → ℕ → Writer → Writer
operand due given w = if ltb given due then bracket w else w

abbrev pub word_if : TokenType → Bool → Writer
word_if type true r = word type ∷ r
word_if type false r = r

abbrev pub literal_token : TokenValue → Lexeme
literal_token no_value = word TokenType.null_lit
literal_token (int_value v) = record { type = TokenType.integer_lit; value = int_value v }
literal_token (float_value v) = record { type = TokenType.float_lit; value = float_value v }
literal_token (string_value s) = record { type = TokenType.string_lit; value = string_value s }
literal_token (bool_value true) = word TokenType.true_lit
literal_token (bool_value false) = word TokenType.false_lit

abbrev pub column_tokens : Bytes → Bytes → Writer
column_tokens [] column r = name_token column ∷ r
column_tokens (c ∷ cs) column r = name_token (c ∷ cs) ∷ word TokenType.dot ∷ name_token column ∷ r

unfoldable mutual
  pub write : Expr → Writer
  write (literal v) r = literal_token v ∷ r
  write (column_ref table column) r = column_tokens table column r
  write (binary op a b) r =
      operand (left_rank op) (rank a) (write a)
        (word (binary_type op) ∷ operand (right_rank op) (rank b) (write b) r)
  write (unary op e) r = word (unary_type op) ∷ operand (unary_rank op) (rank e) (write e) r
  write (is_null_expr e negated) r =
      operand 5 (rank e) (write e)
        (word TokenType.is_kw ∷ word_if TokenType.not_kw negated (word TokenType.null_lit ∷ r))
  write (aggregate type arg star distinct) r =
      word (aggregate_type type)
      ∷ word TokenType.lparen
      ∷ write_argument distinct arg (word TokenType.rparen ∷ r)
  write (case_expr whens els) r =
      word TokenType.case_kw ∷ write_whens whens (write_else els (word TokenType.end_kw ∷ r))
  write (in_expr e values negated) r = operand 5 (rank e) (write e) (
      word_if TokenType.not_kw negated (
        word TokenType.in_kw
        ∷ word TokenType.lparen
        ∷ write_list values (word TokenType.rparen ∷ r)))
  write (between_expr e low high negated) r = operand 5 (rank e) (write e) (
      word_if TokenType.not_kw negated (
        word TokenType.between_kw
        ∷ operand 5 (rank low) (write low)
            (word TokenType.and_kw ∷ operand 5 (rank high) (write high) r)))
  write (like_expr e pattern_expr negated) r = operand 5 (rank e) (write e) (
      word_if TokenType.not_kw negated
        (word TokenType.like_kw ∷ operand 8 (rank pattern_expr) (write pattern_expr) r))
  write (coalesce args) r =
      word TokenType.coalesce_kw
      ∷ word TokenType.lparen
      ∷ write_list args (word TokenType.rparen ∷ r)
  write (nullif a b) r =
      word TokenType.nullif_kw
      ∷ word TokenType.lparen
      ∷ write a (word TokenType.comma ∷ write b (word TokenType.rparen ∷ r))
  write (function_call name args) r =
      name_token name ∷ word TokenType.lparen ∷ write_list args (word TokenType.rparen ∷ r)

  pub write_argument : Bool → OptExpr → Writer
  write_argument distinct no_expr r = word TokenType.star ∷ r
  write_argument distinct (an_expr e) r = word_if TokenType.distinct_kw distinct (write e r)

  pub write_else : OptExpr → Writer
  write_else no_expr r = r
  write_else (an_expr e) r = word TokenType.else_kw ∷ write e r

  pub write_list : Exprs → Writer
  write_list no_exprs r = r
  write_list (more_exprs e es) r = write e (write_more es r)

  pub write_more : Exprs → Writer
  write_more no_exprs r = r
  write_more (more_exprs e es) r = word TokenType.comma ∷ write e (write_more es r)

  pub write_whens : Whens → Writer
  write_whens no_whens r = r
  write_whens (more_whens c e ws) r =
      word TokenType.when_kw ∷ write c (word TokenType.then_kw ∷ write e (write_whens ws r))

-- The expressions that the parser can give: no "!=", which the lexer reads as "<>", a star exactly for
-- COUNT without an argument, and lists that are not empty.
abbrev pub IsList : Exprs → Type 0
IsList no_exprs = ⊥
IsList (more_exprs e es) = Unit

abbrev pub IsParsedOp : BinaryOp → Type 0
IsParsedOp bang_eq_op = ⊥
IsParsedOp _ = Unit

abbrev pub IsStar : AggregateType → Bool → Bool → Type 0
IsStar count true false = Unit
IsStar _ _ _ = ⊥

unfoldable mutual
  pub IsWritable : Expr → Type 0
  IsWritable (literal v) = Unit
  IsWritable (column_ref table column) = Unit
  IsWritable (binary op a b) = IsParsedOp op × IsWritable a × IsWritable b
  IsWritable (unary op e) = IsWritable e
  IsWritable (is_null_expr e negated) = IsWritable e
  IsWritable (aggregate type arg star distinct) = IsArgument type arg star distinct
  IsWritable (case_expr whens els) = AreWritableWhens whens × IsWritableOpt els
  IsWritable (in_expr e values negated) = IsWritable e × IsList values × AreWritable values
  IsWritable (between_expr e low high negated) = IsWritable e × IsWritable low × IsWritable high
  IsWritable (like_expr e pattern_expr negated) = IsWritable e × IsWritable pattern_expr
  IsWritable (coalesce args) = IsList args × AreWritable args
  IsWritable (nullif a b) = IsWritable a × IsWritable b
  IsWritable (function_call name args) = AreWritable args

  pub IsArgument : AggregateType → OptExpr → Bool → Bool → Type 0
  IsArgument type no_expr star distinct = IsStar type star distinct
  IsArgument type (an_expr e) star distinct = (star ≡ false) × IsWritable e

  pub IsWritableOpt : OptExpr → Type 0
  IsWritableOpt no_expr = Unit
  IsWritableOpt (an_expr e) = IsWritable e

  pub AreWritable : Exprs → Type 0
  AreWritable no_exprs = Unit
  AreWritable (more_exprs e es) = IsWritable e × AreWritable es

  pub AreWritableWhens : Whens → Type 0
  AreWritableWhens no_whens = Unit
  AreWritableWhens (more_whens c e ws) = IsWritable c × IsWritable e × AreWritableWhens ws
