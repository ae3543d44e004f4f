-- ===== src/Storage/RowSerializer/Tests.antt =====
-- `RowSerializer` of src/storage/row_serializer.h on concrete rows, and schemas of schema.h.
use seeddb.Base.{List, [], ◌∷◌, inl, inr, encode, decode, arith, false, ◌≡◌, refl, some, true}
use seeddb.Common.LogicalType.{integer, varchar, boolean}
use seeddb.Common.Value.{null_value, integer_value, varchar_value, is_null}
use seeddb.Storage.Schema.{Row, ColumnSchema}
use seeddb.Storage.RowSerializer.{
  serialize, deserialize, payload, payload_size, total_size, write_columns,
}
use seeddb.Storage.RowSerializer.Bounds.{PassesOutcome, passes_bounded}
use seeddb.Storage.RowSerializer.RoundTrip.{RowOutcome, IsTyped, deserialize-serialize_row}

abbrev columns : List ColumnSchema
columns =
    record { name = b'i' ∷ []; type = integer; nullable = false }
    ∷ record { name = b's' ∷ []; type = varchar; nullable = true }
    ∷ record { name = b'b' ∷ []; type = boolean; nullable = true }
    ∷ []

abbrev row : Row
row = integer_value 300 ∷ varchar_value (b'h' ∷ b'i' ∷ []) ∷ null_value ∷ []

row_bytes :
    serialize columns row ≡ some (0 ∷ 44 ∷ 1 ∷ 0 ∷ 0 ∷ 0 ∷ 2 ∷ 0 ∷ 0 ∷ 0 ∷ b'h' ∷ b'i' ∷ 1 ∷ [])
unfolding serialize payload payload_size total_size write_columns is_null encode
row_bytes = refl

-- A length that runs past the buffer gives a null, and so do the columns behind it.
truncated_row :
    deserialize columns (0 ∷ 44 ∷ 1 ∷ 0 ∷ 0 ∷ 0 ∷ 9 ∷ 0 ∷ 0 ∷ 0 ∷ b'h' ∷ [])
    ≡ integer_value 300 ∷ null_value ∷ null_value ∷ []
unfolding deserialize decode
truncated_row = refl

row-IsTyped : IsTyped columns row
row-IsTyped =
    (inr (300, omega arith, refl), (inr (b'h' ∷ b'i' ∷ [], omega arith, refl), (inl refl, tt)))

deserialize-serialize_row_example : RowOutcome columns row
deserialize-serialize_row_example = deserialize-serialize_row columns row row-IsTyped

passes_bounded_example : PassesOutcome columns row
passes_bounded_example = passes_bounded columns row (omega arith)
