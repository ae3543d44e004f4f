-- ===== src/Storage/Catalog/Tests.antt =====
-- The catalog of src/storage/catalog.h with two tables.
use seeddb.Base.{[], ◌∷◌, Bytes, refl}
use seeddb.Storage.Schema.{Schema, make_schema}
use seeddb.Storage.Catalog.{Catalog, get_table}
use seeddb.Storage.Catalog.Laws.{IsMap, CreateOutcome, DropOutcome, catalog_operations}
use seeddb.Common.Value.{str_equal}

abbrev users : Bytes
users = b'u' ∷ []

abbrev orders : Bytes
orders = b'o' ∷ []

abbrev no_columns : Schema
no_columns = make_schema []

abbrev two_tables : Catalog
two_tables =
    (users, record { name = users; schema = no_columns })
    ∷ (orders, record { name = orders; schema = no_columns })
    ∷ []

two_tables-IsMap : IsMap two_tables
unfolding get_table str_equal
two_tables-IsMap = (refl, refl, (refl, refl, tt))

catalog_operations_example :
    CreateOutcome orders no_columns two_tables × DropOutcome orders two_tables
catalog_operations_example = catalog_operations orders no_columns two_tables two_tables-IsMap
