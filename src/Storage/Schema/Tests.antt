-- ===== src/Storage/Schema/Tests.antt =====
-- Schemas of src/storage/schema.h at concrete columns.
use seeddb.Base.{List, [], ◌∷◌, false, ◌≡◌, refl, some, true}
use seeddb.Common.LogicalType.{integer, varchar}
use seeddb.Common.Value.{null_value, is_null, str_equal}
use seeddb.Storage.Schema.{ColumnSchema, make_schema, column_index, validate_row}

abbrev columns : List ColumnSchema
columns =
    record { name = b'i' ∷ []; type = integer; nullable = false }
    ∷ record { name = b's' ∷ []; type = varchar; nullable = true }
    ∷ []

index_of_s : column_index (make_schema columns) (b's' ∷ []) ≡ some 1
unfolding column_index make_schema str_equal
index_of_s = refl

null_refused : validate_row (make_schema columns) (null_value ∷ null_value ∷ []) ≡ false
unfolding validate_row make_schema is_null
null_refused = refl
