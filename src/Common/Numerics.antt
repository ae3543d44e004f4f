-- ===== src/Common/Numerics.antt =====
-- What the program takes from the floating-point hardware and the C++ library on numbers. A `float`
-- and a `double` are their bit patterns, an integer its two's complement pattern.
use seeddb.Base.{ℕ, Bool, Bytes}
use seeddb.Common.Value.{Value, FloatOps}

pub record Numerics : Type 0 where
  pub tests : FloatOps
  pub le64 : ℕ → ℕ → Bool
  pub of_int32 : ℕ → ℕ
  pub of_int64 : ℕ → ℕ
  pub of_float : ℕ → ℕ
  pub to_int32 : ℕ → ℕ
  pub to_int64 : ℕ → ℕ
  pub to_float : ℕ → ℕ
  pub add64 : ℕ → ℕ → ℕ
  pub sub64 : ℕ → ℕ → ℕ
  pub mul64 : ℕ → ℕ → ℕ
  pub div64 : ℕ → ℕ → ℕ
  pub neg32 : ℕ → ℕ
  pub neg64 : ℕ → ℕ
  pub fmod : ℕ → ℕ → ℕ
  pub pow10 : ℕ → ℕ
  pub round : ℕ → ℕ
  pub ceil : ℕ → ℕ
  pub floor : ℕ → ℕ
  -- `Value::toString`, which prints numbers by `std::to_string`.
  pub to_string : Value → Bytes
