-- ===== src/Executor/Aggregates/Having.antt =====
-- COUNT in a HAVING clause of src/executor/executor.cpp, compared with an integer literal.
use seeddb.Base.{ℕ, Bool, true, false, ◌≡◌, refl}
use seeddb.Common.Value.{bigint_value, equals, less_than}
use seeddb.Common.Numerics.{Numerics}
use seeddb.Parser.Ast.{eq_op, lt_op, gt_op}
use seeddb.Executor.Aggregates.{count_accumulator, finalize, group_binary_value, having_holds}

-- A count, an INTEGER, is less than every integer literal, a BIGINT, whatever the numbers are: HAVING
-- keeps each group for `COUNT(…) < n`, and none for `COUNT(…) > n` or `COUNT(…) = n`.
pub count-less_literal :
    (num : Numerics) (star : Bool) (n k : ℕ)
    → (having_holds
          (group_binary_value num lt_op (finalize num (count_accumulator star n)) (bigint_value k))
        ≡ true)
      × (having_holds (
            group_binary_value num gt_op (finalize num (count_accumulator star n)) (bigint_value k))
          ≡ false)
      × (having_holds (
            group_binary_value num eq_op (finalize num (count_accumulator star n)) (bigint_value k))
          ≡ false)
unfolding having_holds group_binary_value finalize less_than equals
count-less_literal num star n k = (refl, refl, refl)
