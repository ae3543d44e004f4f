-- ===== src/Storage/Schema.antt =====
-- src/storage/row.h and schema.h: rows, column descriptions and table schemas.
pub mod Laws
mod Tests
use seeddb.Base.{
  ℕ, zero, suc, ◌+◌, Bool, true, false, not, List, [], ◌∷◌, Option, none, some, Bytes, length, ◌==◌,
  get_elem?, if◌then◌else◌, ◌++◌, ◌&&◌,
}
use mathlib.Core.Option
use seeddb.Common.LogicalType.{LogicalTypeId}
use seeddb.Common.Value.{Value, is_null, str_equal}

-- `Row` is its vector of values.
abbrev pub Row : Type 0
Row = List Value

-- `Row::append`, `Row::set` (in range) and `Row::clear`
unfoldable pub append : Row → Value → Row
append row v = row ++ v ∷ []

unfoldable pub set_value : Row → ℕ → Value → Option Row
set_value [] i v = none
set_value (x ∷ xs) zero v = some (v ∷ xs)
set_value (x ∷ xs) (suc i) v = Option.map (◌∷◌ x) (set_value xs i v)

pub record ColumnSchema : Type 0 where
  pub name : Bytes
  pub type : LogicalTypeId
  pub nullable : Bool

-- `name_to_index_` is the function from a name to what the map holds for it.
pub record Schema : Type 0 where
  pub columns : List ColumnSchema
  pub name_to_index : Bytes → Option ℕ

-- The loop of the constructor, from column `i` on.
unfoldable pub build_index : ℕ → List ColumnSchema → (Bytes → Option ℕ) → Bytes → Option ℕ
build_index i [] m = m
build_index i (c ∷ cs) m = build_index (i + 1) cs (λ n. if str_equal c.name n then some i else m n)

unfoldable pub make_schema : List ColumnSchema → Schema
unfolding build_index
make_schema columns = record {
  columns = columns;
  name_to_index = build_index 0 columns (λ n. none);
}

abbrev pub column_count : Schema → ℕ
column_count s = length s.columns

-- `columnIndex`
unfoldable pub column_index : Schema → Bytes → Option ℕ
column_index s name = s.name_to_index name

-- `hasColumn`
unfoldable pub has_column : Schema → Bytes → Bool
has_column s name = elim (s.name_to_index name) [ none ↦ false | some i ↦ true ]

-- `column(name)`; `none` where it throws.
unfoldable pub column : Schema → Bytes → Option ColumnSchema
column s name = elim (s.name_to_index name) [ none ↦ none | some i ↦ get_elem? s.columns i ]

-- The loop of `validateRow`, on a row of the right length.
unfoldable pub check_nulls : List ColumnSchema → Row → Bool
check_nulls [] row = true
check_nulls (c ∷ cs) [] = true
check_nulls (c ∷ cs) (v ∷ vs) = if not c.nullable && is_null v then false else check_nulls cs vs

unfoldable pub validate_row : Schema → Row → Bool
unfolding check_nulls
validate_row s row =
    if not (length row == length s.columns) then false else check_nulls s.columns row
