-- ===== src/Common/Value/Tests.antt =====
-- The order of src/common/value.h at concrete values.
use seeddb.Base.{ltb, ◌==◌, ◌≡◌, true, refl}
use seeddb.Common.Value.{Value, FloatOps, integer_value, less_than}

-- Positive numbers compare as their patterns do.
abbrev by_pattern : FloatOps
by_pattern = record { eq32 = ◌==◌; lt32 = ltb; eq64 = ◌==◌; lt64 = ltb }

-- The pattern of -1.
abbrev minus_one : Value
minus_one = integer_value 0xffff_ffff

minus_one_first : less_than by_pattern minus_one (integer_value 5) ≡ true
unfolding less_than
minus_one_first = refl
