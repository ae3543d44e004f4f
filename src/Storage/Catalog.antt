-- ===== src/Storage/Catalog.antt =====
-- src/storage/table.h and catalog.h: tables by name. The map is a list of its entries in some
-- order, which no operation shows.
pub mod Laws
mod Tests
use seeddb.Base.{
  ℕ, Bool, true, false, List, [], ◌∷◌, Option, none, some, Bytes, length, if◌then◌else◌,
}
use seeddb.Common.Value.{str_equal}
use seeddb.Storage.Schema.{Schema}

pub record Table : Type 0 where
  pub name : Bytes
  pub schema : Schema

abbrev pub Catalog : Type 0
Catalog = List (Bytes × Table)

-- `getTable`, `none` for a null pointer
unfoldable pub get_table : Catalog → Bytes → Option Table
get_table [] name = none
get_table ((n, t) ∷ c) name = if str_equal n name then some t else get_table c name

-- `hasTable`
unfoldable pub has_table : Catalog → Bytes → Bool
unfolding get_table
has_table c name = elim (get_table c name) [ none ↦ false | some t ↦ true ]

-- `createTable`
unfoldable pub create_table : Bytes → Schema → Catalog → Bool × Catalog
unfolding get_table
create_table name schema c = elim (get_table c name) [
  | some t ↦ (false, c)
  | none ↦ (true, (name, record { name = name; schema = schema }) ∷ c)
]

-- `tables_.erase`
unfoldable pub erase_table : Bytes → Catalog → Catalog
erase_table name [] = []
erase_table name ((n, t) ∷ c) = if str_equal n name then c else (n, t) ∷ erase_table name c

-- `dropTable`
unfoldable pub drop_table : Bytes → Catalog → Bool × Catalog
unfolding get_table erase_table
drop_table name c = elim (get_table c name) [
  | none ↦ (false, c)
  | some t ↦ (true, erase_table name c)
]

-- `tableCount`
abbrev pub table_count : Catalog → ℕ
table_count c = length c
