-- ===== src/Storage/CatalogMeta/RoundTrip.antt =====
-- What `saveCatalogMeta` of src/storage/storage_manager.cpp writes, `loadCatalogMeta` reads back.
use seeddb.Base.{
  ℕ, suc, true, false, List, [], ◌∷◌, ◌++◌, some, none, Bytes, length, length-append, length-encode,
  decode-encode, take-append_length, drop-append_length, append_assoc, le→ltb_false, ◌<◌, ◌≡◌, ◌≤◌,
  Bool, ltb, refl, ◌^◌, arith, not, ◌%◌, encode, if◌then◌else◌, take, ◌==◌, subst, drop, ap, sym,
  append-nil, ◌∙◌, lt→ltb, inl, ◌≢◌, inr,
}
use seeddb.Common.LogicalType.{type_number, number_type-type_number, IsTypeId}
use seeddb.Storage.Schema.{Schema, ColumnSchema, make_schema}
use seeddb.Storage.Catalog.Laws.{str_equal-cases}
use seeddb.Storage.CatalogMeta.{
  Schemas, size_bytes, str_bytes, column_bytes, columns_bytes, table_bytes, tables_bytes,
  catalog_bytes, max_table_count, max_column_count, max_string_length, read_u32, read_u8, read_str,
  read_column, read_columns, read_table, read_tables, emplace, load_catalog,
}

read_u32-size_bytes :
    (n : ℕ) (rest : Bytes) → n < 2 ^ 32 → read_u32 (size_bytes n ++ rest) ≡ some (n, rest)
unfolding read_u32
read_u32-size_bytes n rest h =
    let small : n % 2 ^ 32 ≡ n = omega arith in
    let len = length-encode 4 n in
    let enough : ltb (length (encode 4 n ++ rest)) 4 ≡ false =
      le→ltb_false _ 4 (omega (arith, length-append (encode 4 n) rest)) in
    let head : take 4 (encode 4 n ++ rest) ≡ encode 4 n =
      subst (λ k. take k (encode 4 n ++ rest) ≡ encode 4 n) len
        (take-append_length (encode 4 n) rest) in
    let tail : drop 4 (encode 4 n ++ rest) ≡ rest =
      subst (λ k. drop k (encode 4 n ++ rest) ≡ rest) len (drop-append_length (encode 4 n) rest) in
    rw small (rw (enough, head, tail, decode-encode 4 n h) refl)

read_str-str_bytes :
    (s rest : Bytes)
    → length s ≤ max_string_length
    → read_str (str_bytes s ++ rest) ≡ some (s, rest)
unfolding read_str
read_str-str_bytes s rest h =
    let more : ltb (length (s ++ rest)) (length s) ≡ false =
      le→ltb_false _ (length s) (omega (arith, length-append s rest)) in
    rw append_assoc (
      rw (read_str, read_u32-size_bytes (length s) (s ++ rest) (omega arith))
        (rw
          (
            le→ltb_false max_string_length (length s) h,
            more,
            take-append_length s rest,
            drop-append_length s rest,
          )
          refl))

-- A column that fits the file: its name is not too long, and its type is a named one.
abbrev pub ColumnFits : ColumnSchema → Type 0
ColumnFits c = (length c.name ≤ max_string_length) × IsTypeId c.type × (type_number c.type ≤ 6)

abbrev pub ColumnsFit : List ColumnSchema → Type 0
ColumnsFit [] = Unit
ColumnsFit (c ∷ cs) = ColumnFits c × ColumnsFit cs

-- A table that fits the file, with a schema that the constructor has made.
abbrev pub TableFits : Bytes × Schema → Type 0
TableFits (name, schema) =
    (length name ≤ max_string_length)
    × (length schema.columns ≤ max_column_count)
    × ColumnsFit schema.columns
    × (make_schema schema.columns ≡ schema)

abbrev pub TablesFit : Schemas → Type 0
TablesFit [] = Unit
TablesFit (t ∷ ts) = TableFits t × TablesFit ts

read_column-column_bytes :
    (c : ColumnSchema) (rest : Bytes)
    → ColumnFits c
    → read_column (column_bytes c ++ rest) ≡ some (c, rest)
unfolding read_column read_u8
read_column-column_bytes c rest (fits, named, le) =
    let small : type_number c.type % 256 ≡ type_number c.type = omega arith in
    let low : ltb 10 (type_number c.type) ≡ false = le→ltb_false 10 _ (omega arith) in
    rw small (
      rw append_assoc (
        rw
          (
            read_column,
            read_str-str_bytes c.name (type_number c.type ∷ (if c.nullable then 1 else 0) ∷ rest)
                fits,
          )
          (rw (read_u8, low, number_type-type_number c.type named, flag c.nullable) refl)))
  where
    flag : (b : Bool) → not ((if b then 1 else 0) == 0) ≡ b
    flag true = refl
    flag false = refl

read_columns-columns_bytes :
    (cs : List ColumnSchema) (rest : Bytes)
    → ColumnsFit cs
    → read_columns (length cs) (columns_bytes cs ++ rest) ≡ some (cs, rest)
unfolding read_columns columns_bytes
read_columns-columns_bytes [] rest f = refl
read_columns-columns_bytes (c ∷ cs) rest (fits, f) =
    rw (append_assoc (column_bytes c) (columns_bytes cs) rest) (
      rw (read_columns, read_column-column_bytes c (columns_bytes cs ++ rest) fits)
        (rw (read_columns-columns_bytes cs rest f) refl))

read_table-table_bytes :
    (t : Bytes × Schema) (rest : Bytes)
    → TableFits t
    → read_table (table_bytes t ++ rest) ≡ some (t, rest)
unfolding read_table
read_table-table_bytes (name, schema) rest (named, few, f, made) =
    let cols = columns_bytes schema.columns in
    let size = size_bytes (length schema.columns) in
    let whole : table_bytes (name, schema) ++ rest ≡ str_bytes name ++ (size ++ (cols ++ rest)) =
      append_assoc (str_bytes name ++ size) cols rest
      ∙ append_assoc (str_bytes name) size (cols ++ rest) in
    ap read_table whole
    ∙ rw (read_table, read_str-str_bytes name (size ++ (cols ++ rest)) named)
        (rw (read_u32-size_bytes (length schema.columns) (cols ++ rest) (omega arith)) (
          rw
            (
              le→ltb_false max_column_count (length schema.columns) few,
              read_columns-columns_bytes schema.columns rest f,
            )
            (rw made refl)))

-- No entry has the name.
abbrev pub Unnamed : Bytes → Schemas → Type 0
Unnamed name [] = Unit
Unnamed name (u ∷ us) = (name ≢ u.0) × Unnamed name us

emplace-Unnamed : (t : Bytes × Schema) (us : Schemas) → Unnamed t.0 us → emplace t us ≡ us ++ t ∷ []
unfolding emplace
emplace-Unnamed t [] h = refl
emplace-Unnamed t (u ∷ us) (other, h) = elim (str_equal-cases t.0 u.0) [
  | inl (e, _) ↦ absurd (other e)
  | inr (_, miss) ↦ rw miss (ap (◌∷◌ u) (emplace-Unnamed t us h))
]

-- Each entry's name is none of the earlier ones.
abbrev pub NewNames : Schemas → Schemas → Type 0
NewNames old [] = Unit
NewNames old (t ∷ ts) = Unnamed t.0 old × NewNames (old ++ t ∷ []) ts

read_tables-tables_bytes :
    (ts old : Schemas) (rest : Bytes)
    → TablesFit ts
    → NewNames old ts
    → read_tables (length ts) (tables_bytes ts ++ rest) old ≡ some (old ++ ts)
unfolding read_tables tables_bytes
read_tables-tables_bytes [] old rest f new = ap some (sym (append-nil old))
read_tables-tables_bytes (t ∷ ts) old rest (fits, f) (here, new) =
    rw (append_assoc (table_bytes t) (tables_bytes ts) rest) (
      rw (read_tables, read_table-table_bytes t (tables_bytes ts ++ rest) fits)
        (rw (emplace-Unnamed t old here) (
          read_tables-tables_bytes ts (old ++ t ∷ []) rest f new
          ∙ ap some (append_assoc old (t ∷ []) ts))))

abbrev pub LoadOutcome : Schemas → Type 0
LoadOutcome ts = load_catalog (some (catalog_bytes ts)) [] ≡ (true, ts)

-- Of at most 10000 tables with different names, whose schemas come from the constructor, have at
-- most 1000 columns of named types each, and whose names have at most 65536 bytes: the file that
-- `saveCatalogMeta` writes is read back by `loadCatalogMeta` as the same tables and schemas.
pub load_catalog-catalog_bytes :
    (ts : Schemas) → length ts ≤ max_table_count → TablesFit ts → NewNames [] ts → LoadOutcome ts
unfolding load_catalog catalog_bytes
load_catalog-catalog_bytes ts few f new =
    let all : read_tables (length ts) (tables_bytes ts) [] ≡ some ts =
      ap (λ bs. read_tables (length ts) bs []) (sym (append-nil (tables_bytes ts)))
      ∙ read_tables-tables_bytes ts [] [] f new in
    rw (LoadOutcome, load_catalog, read_u32-size_bytes (length ts) (tables_bytes ts) (omega arith))
      (rw (le→ltb_false max_table_count (length ts) few, all) refl)

read_table-wide :
    (name : Bytes) (schema : Schema) (rest : Bytes)
    → length name ≤ max_string_length
    → max_column_count < length schema.columns
    → length schema.columns < 2 ^ 32
    → read_table (table_bytes (name, schema) ++ rest) ≡ none
unfolding read_table
read_table-wide name schema rest named wide fits =
    let cols = columns_bytes schema.columns in
    let size = size_bytes (length schema.columns) in
    let whole : table_bytes (name, schema) ++ rest ≡ str_bytes name ++ (size ++ (cols ++ rest)) =
      append_assoc (str_bytes name ++ size) cols rest
      ∙ append_assoc (str_bytes name) size (cols ++ rest) in
    ap read_table whole
    ∙ rw (read_table, read_str-str_bytes name (size ++ (cols ++ rest)) named)
        (rw (read_u32-size_bytes (length schema.columns) (cols ++ rest) fits)
          (rw (lt→ltb max_column_count (length schema.columns) wide) refl))

abbrev pub RefusedOutcome : Schemas → Schemas → Type 0
RefusedOutcome ts old = load_catalog (some (catalog_bytes ts)) old ≡ (false, old)

-- Of at most 10000 tables, the first of which has more than 1000 columns, fewer than 2^32, and a name
-- of at most 65536 bytes, `saveCatalogMeta` writes a file that `loadCatalogMeta` refuses, with
-- `schemas_` left as it was.
pub load_catalog-wide :
    (name : Bytes) (schema : Schema) (ts old : Schemas)
    → length ts < max_table_count
    → length name ≤ max_string_length
    → max_column_count < length schema.columns
    → length schema.columns < 2 ^ 32
    → RefusedOutcome ((name, schema) ∷ ts) old
unfolding load_catalog catalog_bytes read_tables tables_bytes
load_catalog-wide name schema ts old few named wide fits =
    let all = table_bytes (name, schema) ++ tables_bytes ts in
    rw (RefusedOutcome, load_catalog, read_u32-size_bytes (suc (length ts)) all (omega arith))
      (rw (le→ltb_false max_table_count (suc (length ts)) few)
        (rw (read_tables, read_table-wide name schema (tables_bytes ts) named wide fits) refl))
