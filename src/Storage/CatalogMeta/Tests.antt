-- ===== src/Storage/CatalogMeta/Tests.antt =====
-- The catalog file of src/storage/storage_manager.cpp for concrete tables.
use seeddb.Base.{ℕ, zero, suc, true, false, List, [], ◌∷◌, arith, length, ◌≡◌, refl, ap, get_or}
use seeddb.Common.LogicalType.{integer, varchar, type_number}
use seeddb.Storage.Schema.{Schema, ColumnSchema, make_schema}
use seeddb.Storage.CatalogMeta.{Schemas}
use seeddb.Storage.CatalogMeta.RoundTrip.{
  LoadOutcome, RefusedOutcome, load_catalog-catalog_bytes, load_catalog-wide, TablesFit, NewNames,
}

abbrev id_column : ColumnSchema
id_column = record { name = b'i' ∷ []; type = integer; nullable = false }

abbrev name_column : ColumnSchema
name_column = record { name = b'n' ∷ []; type = varchar; nullable = true }

abbrev tables : Schemas
tables =
    (b'u' ∷ [], make_schema (id_column ∷ name_column ∷ []))
    ∷ (b'o' ∷ [], make_schema (id_column ∷ []))
    ∷ []

tables-TablesFit : TablesFit tables
unfolding make_schema type_number
tables-TablesFit = (
  (
    omega arith,
    omega arith,
    ((omega arith, tt, omega arith), ((omega arith, tt, omega arith), tt)),
    refl,
  ),
  ((omega arith, omega arith, ((omega arith, tt, omega arith), tt), refl), tt),
)

tables-NewNames : NewNames [] tables
tables-NewNames = (tt, ((λ e. omega (arith, ap (λ s. get_or s 0 0) e), tt), tt))

load_catalog-catalog_bytes_example : LoadOutcome tables
load_catalog-catalog_bytes_example =
    load_catalog-catalog_bytes tables (omega arith) tables-TablesFit tables-NewNames

-- That many columns of one kind.
repeated : ℕ → List ColumnSchema
repeated zero = []
repeated (suc n) = id_column ∷ repeated n

abbrev wide : Schema
wide = make_schema (repeated 1001)

wide-columns : length wide.columns ≡ 1001
unfolding make_schema repeated
wide-columns = refl

load_catalog-wide_example : RefusedOutcome ((b'w' ∷ [], wide) ∷ []) tables
load_catalog-wide_example =
    load_catalog-wide (b'w' ∷ []) wide [] tables (omega arith) (omega arith)
      (omega (arith, wide-columns)) (omega (arith, wide-columns))
