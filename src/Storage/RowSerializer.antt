-- ===== src/Storage/RowSerializer.antt =====
-- src/storage/row_serializer.h: rows as bytes, by the schema's column types.
pub mod Bounds
pub mod RoundTrip
mod Tests
use seeddb.Base.{
  ℕ, zero, suc, ◌+◌, ◌*◌, ◌-◌, ◌%◌, ◌^◌, Bool, true, false, List, [], ◌∷◌, ◌++◌, Option, none, some,
  Bytes, length, take, drop, encode, decode, ◌==◌, ltb, if◌then◌else◌, zeros, not,
}
use mathlib.Core.Option
use seeddb.Common.LogicalType.{
  LogicalTypeId, sql_null, integer, bigint, float, double, varchar, boolean, unknown,
}
use seeddb.Common.Value.{
  Value, null_value, integer_value, bigint_value, float_value, double_value, varchar_value,
  boolean_value, is_null, as_int32, as_int64, as_float, as_double, as_string, as_bool,
}
use seeddb.Storage.Schema.{Row, ColumnSchema}

-- The switch of the first pass.
unfoldable pub payload_size : LogicalTypeId → Value → ℕ
payload_size integer v = 4
payload_size bigint v = 8
payload_size float v = 4
payload_size double v = 8
payload_size boolean v = 1
payload_size varchar v = 4 + length (as_string v)
payload_size _ v = 0

-- The first pass: the buffer's size. `none` where `row.get(i)` is out of range.
unfoldable pub total_size : List ColumnSchema → Row → Option ℕ
total_size [] row = some 0
total_size (c ∷ cs) [] = none
total_size (c ∷ cs) (v ∷ vs) =
    Option.map (λ n. (if is_null v then 1 else 1 + payload_size c.type v) + n) (total_size cs vs)

-- The switch of the second pass: the bytes that are copied. A length is cast to `uint32_t`.
unfoldable pub payload : LogicalTypeId → Value → Bytes
payload integer v = encode 4 (as_int32 v)
payload bigint v = encode 8 (as_int64 v)
payload float v = encode 4 (as_float v)
payload double v = encode 8 (as_double v)
payload boolean v = encode 1 (if as_bool v then 1 else 0)
payload varchar v =
    let len = length (as_string v) % 2 ^ 32 in encode 4 len ++ take len (as_string v)
payload _ v = []

-- The second pass: all bytes that are written, in order.
unfoldable pub write_columns : List ColumnSchema → Row → Option Bytes
write_columns [] row = some []
write_columns (c ∷ cs) [] = none
write_columns (c ∷ cs) (v ∷ vs) =
    Option.map (λ bs. (if is_null v then 1 ∷ [] else 0 ∷ payload c.type v) ++ bs)
      (write_columns cs vs)

-- `serialize`: the written bytes at the start of a buffer of zeros of the computed size.
unfoldable pub serialize : List ColumnSchema → Row → Option Bytes
serialize cs row = elim (total_size cs row) [
  | none ↦ none
  | some total ↦ Option.map (λ bs. bs ++ zeros (total - length bs)) (write_columns cs row)
]

-- A field of `w` bytes, if there are that many; else the rest of the buffer is skipped.
unfoldable pub take_word : ℕ → (ℕ → Value) → Bytes → Value × Bytes
take_word w make data_left =
    if ltb (length data_left) w
    then (null_value, [])
    else (make (decode (take w data_left)), drop w data_left)

-- The switch of `deserialize`: the value and the bytes left.
unfoldable pub read_payload : LogicalTypeId → Bytes → Value × Bytes
read_payload integer bs = take_word 4 integer_value bs
read_payload bigint bs = take_word 8 bigint_value bs
read_payload float bs = take_word 4 float_value bs
read_payload double bs = take_word 8 double_value bs
read_payload boolean bs = take_word 1 (λ v. boolean_value (not (v == 0))) bs
read_payload varchar bs =
    let len = decode (take 4 bs) in
    let rest = drop 4 bs in
    if ltb (length bs) 4
    then (null_value, [])
    else if ltb (length rest) len
    then (null_value, [])
    else (varchar_value (take len rest), drop len rest)
read_payload _ bs = (null_value, bs)

-- One column: its null flag and its value.
unfoldable pub read_column : LogicalTypeId → Bytes → Value × Bytes
unfolding read_payload take_word
read_column t [] = (null_value, [])
read_column t (flag ∷ bs) = if not (flag == 0) then (null_value, bs) else read_payload t bs

-- `deserialize`
unfoldable pub deserialize : List ColumnSchema → Bytes → Row
unfolding read_column
deserialize [] bs = []
deserialize (c ∷ cs) bs = let (v, rest) = read_column c.type bs in v ∷ deserialize cs rest
