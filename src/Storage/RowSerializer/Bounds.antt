-- ===== src/Storage/RowSerializer/Bounds.antt =====
-- The two passes of `RowSerializer::serialize` in src/storage/row_serializer.h.
use mathlib.Core.Option.{some}
use seeddb.Base.{
  zero, suc, ℕ, ◌+◌, List, [], ◌∷◌, ◌++◌, Bytes, length, take, ◌<◌, ◌≡◌, ◌≤◌, ap, arith,
  length-encode, ◌^◌, if◌then◌else◌, length-append, refl, length-take_le, ◌%◌, Bool-cases, inl, inr,
}
use seeddb.Common.LogicalType.{
  LogicalTypeId, sql_null, integer, bigint, float, double, varchar, boolean, unknown,
}
use seeddb.Common.Value.{Value, is_null}
use seeddb.Storage.Schema.{Row, ColumnSchema}
use seeddb.Storage.RowSerializer.{payload_size, total_size, payload, write_columns, deserialize}

length-take_min : (n : ℕ) (xs : Bytes) → length (take n xs) ≤ length xs
length-take_min zero xs = omega arith
length-take_min (suc n) [] = omega arith
length-take_min (suc n) (x ∷ xs) = omega (arith, length-take_min n xs)

pub length-payload_le : (t : LogicalTypeId) (v : Value) → length (payload t v) ≤ payload_size t v
unfolding payload payload_size
length-payload_le integer v = rw length-encode (omega arith)
length-payload_le bigint v = rw length-encode (omega arith)
length-payload_le float v = rw length-encode (omega arith)
length-payload_le double v = rw length-encode (omega arith)
length-payload_le boolean v = rw length-encode (omega arith)
length-payload_le varchar v =
    rw (length-append, length-encode) (omega (arith, length-take_min (length v.str % 2 ^ 32) v.str))
length-payload_le sql_null v = omega arith
length-payload_le (unknown n) v = omega arith

-- With the string lengths within a `uint32_t` the sizes agree.
pub length-payload :
    (t : LogicalTypeId) (v : Value)
    → length v.str < 2 ^ 32
    → length (payload t v) ≡ payload_size t v
unfolding payload payload_size
length-payload integer v h = length-encode 4 _
length-payload bigint v h = length-encode 8 _
length-payload float v h = length-encode 4 _
length-payload double v h = length-encode 8 _
length-payload boolean v h = length-encode 1 _
length-payload varchar v h =
    rw (length-append, length-encode)
      (omega (arith, length-take_le (length v.str % 2 ^ 32) v.str (omega arith)))
length-payload sql_null v h = refl
length-payload (unknown n) v h = refl

abbrev pub PassesOutcome : List ColumnSchema → Row → Type 0
PassesOutcome cs row =
    (n : ℕ) × (bs : Bytes) × (total_size cs row ≡ some n)
    × (write_columns cs row ≡ some bs)
    × (length bs ≤ n)

-- For a row with at least as many values as the schema has columns, whatever their types, both
-- passes run to their end, and the second never writes more bytes than the first has counted.
pub passes_bounded :
    (cs : List ColumnSchema) (row : Row) → length cs ≤ length row → PassesOutcome cs row
unfolding total_size write_columns
passes_bounded [] row h = (0, [], refl, refl, omega arith)
passes_bounded (c ∷ cs) [] h = elim h [ ]
passes_bounded (c ∷ cs) (v ∷ vs) h =
    let (n, bs, total, written, le) = passes_bounded cs vs (omega arith) in
    (
      (if is_null v then 1 else 1 + payload_size c.type v) + n,
      (if is_null v then 1 ∷ [] else 0 ∷ payload c.type v) ++ bs,
      rw (total, total_size) refl,
      rw (written, write_columns) refl,
      elim (Bool-cases (is_null v)) [
        | inl gone ↦ rw gone (omega arith)
        | inr there ↦
            rw there
              (omega (arith, length-append (payload c.type v) bs, length-payload_le c.type v))
      ],
    )

-- `deserialize` gives one value for each column, whatever the bytes are.
pub length-deserialize :
    (cs : List ColumnSchema) (bs : Bytes) → length (deserialize cs bs) ≡ length cs
unfolding deserialize
length-deserialize [] bs = refl
length-deserialize (c ∷ cs) bs = ap suc (length-deserialize cs _)
