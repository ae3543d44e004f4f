-- ===== src/Parser/Expressions/Starts.antt =====
-- The first token of a written expression.
use seeddb.Base.{ℕ, ◌<◌, arith, ltb, Bool, true, false, [], ◌∷◌, ◌≡◌, refl, Bool-cases, inl, inr}
use seeddb.Parser.Token.{TokenType, no_value, int_value, float_value, string_value, bool_value}
use seeddb.Parser.Ast.{
  Expr, literal, column_ref, binary, unary, is_null_expr, aggregate, case_expr, in_expr,
  between_expr, like_expr, coalesce, nullif, function_call, not_op, neg_op, plus_op, count, sum,
  avg, min, max,
}
use seeddb.Parser.Stream.{Tokens, ok, check, accept, same_type}
use seeddb.Parser.Expressions.Writer.{Writer, operand, write}
use seeddb.Parser.Expressions.Levels.{tightness, bound}

-- The tokens that an expression may start with.
abbrev starts_type : TokenType → Bool
starts_type TokenType.lparen = true
starts_type TokenType.identifier = true
starts_type TokenType.integer_lit = true
starts_type TokenType.float_lit = true
starts_type TokenType.string_lit = true
starts_type TokenType.true_lit = true
starts_type TokenType.false_lit = true
starts_type TokenType.null_lit = true
starts_type TokenType.case_kw = true
starts_type TokenType.coalesce_kw = true
starts_type TokenType.nullif_kw = true
starts_type TokenType.count_kw = true
starts_type TokenType.sum_kw = true
starts_type TokenType.avg_kw = true
starts_type TokenType.min_kw = true
starts_type TokenType.max_kw = true
starts_type TokenType.not_kw = true
starts_type TokenType.minus = true
starts_type TokenType.plus = true
starts_type _ = false

abbrev pub Starts : Tokens → Type 0
Starts [] = ⊥
Starts (t ∷ ts) = starts_type t.type ≡ true

operand-Starts :
    (due j : ℕ) (w : Writer)
    → ((r : Tokens) → Starts (w r))
    → (r : Tokens) → Starts (operand due j w r)
operand-Starts due j w h r = elim (Bool-cases (ltb j due)) [
  | inl e ↦ rw e refl
  | inr e ↦ rw e (h r)
]

pub write-Starts : (e : Expr) (r : Tokens) → Starts (write e r)
unfolding write
write-Starts (literal no_value) r = refl
write-Starts (literal (int_value v)) r = refl
write-Starts (literal (float_value v)) r = refl
write-Starts (literal (string_value s)) r = refl
write-Starts (literal (bool_value true)) r = refl
write-Starts (literal (bool_value false)) r = refl
write-Starts (column_ref [] column) r = refl
write-Starts (column_ref (c ∷ cs) column) r = refl
write-Starts (binary op a b) r = operand-Starts _ _ (write a) (write-Starts a) _
write-Starts (unary not_op e) r = refl
write-Starts (unary neg_op e) r = refl
write-Starts (unary plus_op e) r = refl
write-Starts (is_null_expr e negated) r = operand-Starts _ _ (write e) (write-Starts e) _
write-Starts (aggregate count arg star distinct) r = refl
write-Starts (aggregate sum arg star distinct) r = refl
write-Starts (aggregate avg arg star distinct) r = refl
write-Starts (aggregate min arg star distinct) r = refl
write-Starts (aggregate max arg star distinct) r = refl
write-Starts (case_expr whens els) r = refl
write-Starts (in_expr e values negated) r = operand-Starts _ _ (write e) (write-Starts e) _
write-Starts (between_expr e low high negated) r = operand-Starts _ _ (write e) (write-Starts e) _
write-Starts (like_expr e pattern_expr negated) r = operand-Starts _ _ (write e) (write-Starts e) _
write-Starts (coalesce args) r = refl
write-Starts (nullif a b) r = refl
write-Starts (function_call name args) r = refl

not_star : (t : TokenType) → starts_type t ≡ true → same_type t TokenType.star ≡ false
not_star TokenType.star h = cc
not_star _ h = refl

not_distinct : (t : TokenType) → starts_type t ≡ true → same_type t TokenType.distinct_kw ≡ false
not_distinct TokenType.distinct_kw h = cc
not_distinct _ h = refl

not_rparen : (t : TokenType) → starts_type t ≡ true → same_type t TokenType.rparen ≡ false
not_rparen TokenType.rparen h = cc
not_rparen _ h = refl

not_open : (t : TokenType) → tightness t < 8 → same_type t TokenType.lparen ≡ false
unfolding tightness
not_open TokenType.lparen h = absurd (omega arith)
not_open _ h = refl

not_dot : (t : TokenType) → tightness t < 8 → same_type t TokenType.dot ≡ false
unfolding tightness
not_dot TokenType.dot h = absurd (omega arith)
not_dot _ h = refl

pub accept-other :
    (type : TokenType) (ts : Tokens) → check type ts ≡ false → accept type ts ≡ ok false ts
unfolding accept check
accept-other type [] h = refl
accept-other type (t ∷ ts) h = rw h refl

pub check-rparen : (ts : Tokens) → Starts ts → check TokenType.rparen ts ≡ false
unfolding check
check-rparen [] h = absurd h
check-rparen (t ∷ ts) h = not_rparen t.type h

check-star : (ts : Tokens) → Starts ts → check TokenType.star ts ≡ false
unfolding check
check-star [] h = absurd h
check-star (t ∷ ts) h = not_star t.type h

check-distinct : (ts : Tokens) → Starts ts → check TokenType.distinct_kw ts ≡ false
unfolding check
check-distinct [] h = absurd h
check-distinct (t ∷ ts) h = not_distinct t.type h

check-open : (ts : Tokens) → bound ts < 8 → check TokenType.lparen ts ≡ false
unfolding check
check-open [] h = refl
check-open (t ∷ ts) h = not_open t.type h

check-dot : (ts : Tokens) → bound ts < 8 → check TokenType.dot ts ≡ false
unfolding check
check-dot [] h = refl
check-dot (t ∷ ts) h = not_dot t.type h

pub accept-star : (ts : Tokens) → Starts ts → accept TokenType.star ts ≡ ok false ts
accept-star ts h = accept-other TokenType.star ts (check-star ts h)

pub accept-distinct : (ts : Tokens) → Starts ts → accept TokenType.distinct_kw ts ≡ ok false ts
accept-distinct ts h = accept-other TokenType.distinct_kw ts (check-distinct ts h)

pub accept-open : (ts : Tokens) → bound ts < 8 → accept TokenType.lparen ts ≡ ok false ts
accept-open ts h = accept-other TokenType.lparen ts (check-open ts h)

pub accept-dot : (ts : Tokens) → bound ts < 8 → accept TokenType.dot ts ≡ ok false ts
accept-dot ts h = accept-other TokenType.dot ts (check-dot ts h)
