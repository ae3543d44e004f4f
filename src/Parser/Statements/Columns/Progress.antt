-- ===== src/Parser/Statements/Columns/Progress.antt =====
-- Column definitions of src/parser/parser.cpp: each takes a token, so that the loop over them ends by
-- its own tests.
use seeddb.Base.{ℕ, zero, suc, [], ◌∷◌, length, arith, Bool-cases, inl, inr}
use seeddb.Parser.Token.{TokenType}
use seeddb.Parser.Stream.{Tokens}
use seeddb.Parser.Stream.Progress.{
  Within, Uses, Within-weaken, first, also, later, loosen, pure-Uses, fail-Uses, accept-Uses,
  require-Uses, require_name-Uses, by_bool,
}
use seeddb.Executor.Statements.{DataType}
use seeddb.Parser.Statements.Columns.{
  data_type_of, parse_data_type, parse_column_def, is_done, column_loop, parse_column_def_list,
}

data_type_of-Uses : {f : ℕ} (type : TokenType) → Uses 0 f (data_type_of type)
unfolding data_type_of
data_type_of-Uses TokenType.integer_kw = pure-Uses
data_type_of-Uses TokenType.bigint_kw = pure-Uses
data_type_of-Uses TokenType.float_kw = pure-Uses
data_type_of-Uses TokenType.double_kw = pure-Uses
data_type_of-Uses TokenType.varchar_kw = later (accept-Uses TokenType.lparen) λ has.
    by_bool has
      (loosen (
        also (require-Uses TokenType.integer_lit)
          λ t. loosen (also (require-Uses TokenType.rparen) λ t. pure-Uses)))
      pure-Uses
data_type_of-Uses TokenType.text_kw = pure-Uses
data_type_of-Uses TokenType.boolean_kw = pure-Uses
data_type_of-Uses _ = fail-Uses DataType

data_type-Within : (ts : Tokens) → Within 1 (length ts) (parse_data_type ts)
unfolding parse_data_type
data_type-Within [] = tt
data_type-Within (t ∷ ts) =
    Within-weaken 1 0 (length ts) (suc (length ts)) (data_type_of t.type ts) (omega arith)
      ((data_type_of-Uses {f = suc (length ts)} t.type).within ts (omega arith))

parse_column_def-Uses : {f : ℕ} → Uses 1 f parse_column_def
unfolding parse_column_def
parse_column_def-Uses = also require_name-Uses λ name.
    later (loosen (record { within = λ ts lt. data_type-Within ts })) λ type.
      later (accept-Uses TokenType.not_kw)
        λ n. by_bool n (loosen (also (require-Uses TokenType.null_lit) λ t. pure-Uses)) pure-Uses

column_loop-Uses : (n : ℕ) → Uses 0 n (column_loop n)
unfolding column_loop
column_loop-Uses zero = record { within = λ ts lt. absurd (omega arith) }
column_loop-Uses (suc n) = record {
  within = λ ts lt. elim (Bool-cases (is_done ts)) [
    | inl e ↦ rw (e, Within) (omega arith)
    | inr e ↦
        rw (e, Within)
          ((loosen (
              first parse_column_def-Uses λ col. later (accept-Uses TokenType.comma) λ more.
                by_bool more (later (column_loop-Uses n) λ cols. pure-Uses) pure-Uses)).within
            ts lt)
  ];
}

pub column_list-Uses : {f : ℕ} → Uses 0 f parse_column_def_list
unfolding parse_column_def_list
column_list-Uses = record {
  within = λ ts lt. (column_loop-Uses (suc (length ts))).within ts (omega arith);
}
