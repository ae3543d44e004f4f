-- ===== src/Storage/CatalogMeta.antt =====
-- The file catalog.meta of src/storage/storage_manager.cpp: `saveCatalogMeta`, `loadCatalogMeta`.
-- The file is its bytes; opening, the short writes and the renaming are file input and output. The
-- map `schemas_` is a list of its entries, in the order that a loop over the map meets them.
pub mod RoundTrip
mod Tests
use seeddb.Base.{
  ℕ, zero, suc, ◌+◌, ◌%◌, ◌^◌, Bool, true, false, not, List, [], ◌∷◌, ◌++◌, Option, none, some,
  Bytes, length, take, drop, encode, decode, ◌==◌, ltb, if◌then◌else◌,
}
use mathlib.Core.Option
use seeddb.Common.LogicalType.{type_number, number_type}
use seeddb.Common.Value.{str_equal}
use seeddb.Storage.Schema.{Schema, ColumnSchema, make_schema}

abbrev pub Schemas : Type 0
Schemas = List (Bytes × Schema)

-- `write_u32` of a size, and `write_str`
abbrev pub size_bytes : ℕ → Bytes
size_bytes n = encode 4 (n % 2 ^ 32)

abbrev pub str_bytes : Bytes → Bytes
str_bytes s = size_bytes (length s) ++ s

abbrev pub column_bytes : ColumnSchema → Bytes
column_bytes c = str_bytes c.name ++ type_number c.type % 256 ∷ (if c.nullable then 1 else 0) ∷ []

pub columns_bytes : List ColumnSchema → Bytes
columns_bytes [] = []
columns_bytes (c ∷ cs) = column_bytes c ++ columns_bytes cs

abbrev pub table_bytes : Bytes × Schema → Bytes
table_bytes (name, schema) =
    str_bytes name ++ size_bytes (length schema.columns) ++ columns_bytes schema.columns

pub tables_bytes : Schemas → Bytes
tables_bytes [] = []
tables_bytes (t ∷ ts) = table_bytes t ++ tables_bytes ts

-- `saveCatalogMeta`: what it writes, in order.
pub catalog_bytes : Schemas → Bytes
catalog_bytes schemas = size_bytes (length schemas) ++ tables_bytes schemas

abbrev pub max_table_count : ℕ
max_table_count = 10000

abbrev pub max_column_count : ℕ
max_column_count = 1000

abbrev pub max_string_length : ℕ
max_string_length = 65536

abbrev pub max_logical_type_id : ℕ
max_logical_type_id = 10

-- `read_u32`, `read_u8` and `read_str`: the value and the bytes left.
pub read_u32 : Bytes → Option (ℕ × Bytes)
read_u32 bs = if ltb (length bs) 4 then none else some (decode (take 4 bs), drop 4 bs)

pub read_u8 : Bytes → Option (ℕ × Bytes)
read_u8 [] = none
read_u8 (b ∷ bs) = some (b, bs)

pub read_str : Bytes → Option (Bytes × Bytes)
read_str bs = elim (read_u32 bs) [
  | none ↦ none
  | some (len, rest) ↦
      if ltb max_string_length len
      then none
      else if ltb (length rest) len
      then none
      else some (take len rest, drop len rest)
]

-- The body of the loop over the columns of a table.
pub read_column : Bytes → Option (ColumnSchema × Bytes)
read_column bs = elim (read_str bs) [
  | none ↦ none
  | some (name, after_name) ↦ elim (read_u8 after_name) [
    | none ↦ none
    | some (id, after_id) ↦ elim (read_u8 after_id) [
      | none ↦ none
      | some (nullable, rest) ↦
          if ltb max_logical_type_id id
          then none
          else some
              (record { name = name; type = number_type id; nullable = not (nullable == 0) }, rest)
    ]
  ]
]

pub read_columns : ℕ → Bytes → Option (List ColumnSchema × Bytes)
read_columns zero bs = some ([], bs)
read_columns (suc n) bs = elim (read_column bs) [
  | none ↦ none
  | some (c, rest) ↦
      Option.map (λ (x : List ColumnSchema × Bytes). (c ∷ x.0, x.1)) (read_columns n rest)
]

-- The body of the loop over the tables.
pub read_table : Bytes → Option ((Bytes × Schema) × Bytes)
read_table bs = elim (read_str bs) [
  | none ↦ none
  | some (name, after_name) ↦ elim (read_u32 after_name) [
    | none ↦ none
    | some (count, rest) ↦
        if ltb max_column_count count
        then none
        else Option.map (λ (x : List ColumnSchema × Bytes). ((name, make_schema x.0), x.1))
            (read_columns count rest)
  ]
]

-- `schemas_.emplace`: an entry of that name stays.
unfoldable pub emplace : Bytes × Schema → Schemas → Schemas
emplace t [] = t ∷ []
emplace t (u ∷ us) = if str_equal t.0 u.0 then u ∷ us else u ∷ emplace t us

pub read_tables : ℕ → Bytes → Schemas → Option Schemas
read_tables zero bs schemas = some schemas
read_tables (suc n) bs schemas = elim (read_table bs) [
  | none ↦ none
  | some (t, rest) ↦ read_tables n rest (emplace t schemas)
]

-- `loadCatalogMeta`, of the file if there is one: the answer and `schemas_` after.
pub load_catalog : Option Bytes → Schemas → Bool × Schemas
load_catalog none schemas = (true, schemas)
load_catalog (some bs) schemas = elim (read_u32 bs) [
  | none ↦ (false, schemas)
  | some (count, rest) ↦
      if ltb max_table_count count
      then (false, schemas)
      else elim (read_tables count rest schemas) [
        | none ↦ (false, schemas)
        | some loaded ↦ (true, loaded)
      ]
]
