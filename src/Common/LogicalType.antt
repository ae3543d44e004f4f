-- ===== src/Common/LogicalType.antt =====
-- src/common/logical_type.h and `logical_type_name` of src/storage/schema.h: the SQL types.
use seeddb.Base.{ℕ, Bool, true, false, ◌==◌, if◌then◌else◌, ◌<◌, ◌≡◌, arith, refl}

-- `enum class LogicalTypeId`; a cast from an integer gives the other values.
pub data LogicalTypeId : Type 0 where
  sql_null integer bigint float double varchar boolean : LogicalTypeId
  unknown : ℕ → LogicalTypeId

-- `static_cast<int>(id)`, also `static_cast<uint8_t>(id)` on the named values.
unfoldable pub type_number : LogicalTypeId → ℕ
type_number sql_null = 0
type_number integer = 1
type_number bigint = 2
type_number float = 3
type_number double = 4
type_number varchar = 5
type_number boolean = 6
type_number (unknown n) = n

-- `static_cast<LogicalTypeId>(n)`
unfoldable pub number_type : ℕ → LogicalTypeId
number_type n =
    if n == 0
    then sql_null
    else if n == 1
    then integer
    else if n == 2
    then bigint
    else if n == 3
    then float
    else if n == 4
    then double
    else if n == 5
    then varchar
    else if n == 6
    then boolean
    else unknown n

unfoldable pub is_integer : LogicalTypeId → Bool
is_integer integer = true
is_integer bigint = true
is_integer _ = false

unfoldable pub is_floating : LogicalTypeId → Bool
is_floating float = true
is_floating double = true
is_floating _ = false

unfoldable pub is_numeric : LogicalTypeId → Bool
is_numeric integer = true
is_numeric bigint = true
is_numeric float = true
is_numeric double = true
is_numeric _ = false

unfoldable pub is_string : LogicalTypeId → Bool
is_string varchar = true
is_string _ = false

-- `fixedSize`
unfoldable pub fixed_size : LogicalTypeId → ℕ
fixed_size integer = 4
fixed_size bigint = 8
fixed_size float = 4
fixed_size double = 8
fixed_size boolean = 1
fixed_size _ = 0

-- A named type, or a number that names none.
abbrev pub IsTypeId : LogicalTypeId → Type 0
IsTypeId (unknown n) = 6 < n
IsTypeId _ = Unit

pub number_type-type_number : (t : LogicalTypeId) → IsTypeId t → number_type (type_number t) ≡ t
unfolding number_type type_number
number_type-type_number sql_null h = refl
number_type-type_number (unknown n) h = ground arith
number_type-type_number _ h = refl
