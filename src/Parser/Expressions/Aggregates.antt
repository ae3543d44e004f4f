-- ===== src/Parser/Expressions/Aggregates.antt =====
-- The parser of src/parser/parser.cpp reads back aggregate calls as they are written.
use seeddb.Base.{ℕ, suc, ◌≤◌, ◌<◌, Bool, true, false, ◌∷◌, length, ◌≡◌, refl, ◌∙◌, arith}
use seeddb.Parser.Token.{TokenType}
use seeddb.Parser.Ast.{Expr, aggregate, no_expr, an_expr, AggregateType, count, sum, avg, min, max}
use seeddb.Parser.Stream.{Tokens, ok, P, accept}
use seeddb.Parser.Expressions.Primary.{
  accepts_star, aggregate_argument, parse_aggregate_expr, parse_primary_expr,
}
use seeddb.Parser.Expressions.{parse_expression}
use seeddb.Parser.Expressions.Writer.{word, aggregate_type, word_if, write}
use seeddb.Parser.Expressions.Levels.{At, tightness}
use seeddb.Parser.Expressions.Starts.{write-Starts, accept-star, accept-distinct}
use seeddb.Parser.Expressions.Primaries.{Whole, whole}

aggregate_argument-write :
    (type : AggregateType) (distinct : Bool) (e : Expr) (f : ℕ) (r : Tokens)
    → Whole e
    → suc (length (write e (word TokenType.rparen ∷ r))) < f
    → aggregate_argument type
        (parse_expression f)
        (word_if TokenType.distinct_kw distinct (write e (word TokenType.rparen ∷ r)))
      ≡ ok (aggregate type (an_expr e) false distinct) r
unfolding aggregate_argument tightness
aggregate_argument-write type true e f r h l =
    rw (whole h f (word TokenType.rparen ∷ r) (omega arith) (omega arith)) refl
aggregate_argument-write type false e f r h l =
    rw
      (
        accept-distinct (write e (word TokenType.rparen ∷ r))
            (write-Starts e (word TokenType.rparen ∷ r)),
        whole h f (word TokenType.rparen ∷ r) (omega arith) (omega arith),
      )
      refl

argument_starts :
    (distinct : Bool) (e : Expr) (r : Tokens)
    → accept TokenType.star (word_if TokenType.distinct_kw distinct (write e r))
      ≡ ok false (word_if TokenType.distinct_kw distinct (write e r))
unfolding accept
argument_starts true e r = refl
argument_starts false e r = accept-star (write e r) (write-Starts e r)

-- An aggregate with an argument, by whether it is COUNT, which looks for a star first.
aggregate_reads :
    (type : AggregateType) (distinct : Bool) (e : Expr) (f : ℕ) (r : Tokens)
    → Whole e
    → suc (length (write e (word TokenType.rparen ∷ r))) < f
    → parse_aggregate_expr type (parse_expression f) (
        word TokenType.lparen
        ∷ word_if TokenType.distinct_kw distinct (write e (word TokenType.rparen ∷ r)))
      ≡ ok (aggregate type (an_expr e) false distinct) r
unfolding parse_aggregate_expr accepts_star
aggregate_reads count distinct e f r h l =
    rw
      (
        argument_starts distinct e (word TokenType.rparen ∷ r),
        aggregate_argument-write count distinct e f r h l,
      )
      refl
aggregate_reads sum distinct e f r h l = aggregate_argument-write sum distinct e f r h l
aggregate_reads avg distinct e f r h l = aggregate_argument-write avg distinct e f r h l
aggregate_reads min distinct e f r h l = aggregate_argument-write min distinct e f r h l
aggregate_reads max distinct e f r h l = aggregate_argument-write max distinct e f r h l

aggregate_primary :
    (type : AggregateType) (px : P Expr) (ts : Tokens)
    → parse_primary_expr px (word (aggregate_type type) ∷ ts) ≡ parse_aggregate_expr type px ts
unfolding parse_primary_expr
aggregate_primary count px ts = refl
aggregate_primary sum px ts = refl
aggregate_primary avg px ts = refl
aggregate_primary min px ts = refl
aggregate_primary max px ts = refl

pub word_if-le :
    (type : TokenType) (b : Bool) (ts : Tokens) → length ts ≤ length (word_if type b ts)
word_if-le type true ts = omega arith
word_if-le type false ts = omega arith

pub aggregate-At :
    (type : AggregateType) (distinct : Bool) (e : Expr)
    → Whole e
    → At parse_primary_expr 8
        (λ r.
          word (aggregate_type type)
          ∷ word TokenType.lparen
          ∷ word_if TokenType.distinct_kw distinct (write e (word TokenType.rparen ∷ r)))
        (aggregate type (an_expr e) false distinct)
aggregate-At type distinct e h = record {
  reads = λ f r l lt.
      let ts = write e (word TokenType.rparen ∷ r) in
      let grown = word_if-le TokenType.distinct_kw distinct (write e (word TokenType.rparen ∷ r)) in
      aggregate_primary type (parse_expression f) (
        word TokenType.lparen
        ∷ word_if TokenType.distinct_kw distinct (write e (word TokenType.rparen ∷ r)))
      ∙ aggregate_reads type distinct e f r h (omega arith);
}

pub star-At :
    At parse_primary_expr 8
      (λ r.
        word TokenType.count_kw
        ∷ word TokenType.lparen
        ∷ word TokenType.star
        ∷ word TokenType.rparen
        ∷ r)
      (aggregate count no_expr true false)
unfolding parse_primary_expr accepts_star
star-At = record { reads = λ f r l lt. refl }
