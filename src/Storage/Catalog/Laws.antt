-- ===== src/Storage/Catalog/Laws.antt =====
-- The catalog of src/storage/catalog.h as a map from names to tables.
use seeddb.Base.{
  suc, Bool, true, false, [], ◌∷◌, none, some, Bytes, length, Bool-cases, Option-cases, Option, inl,
  ◌≡◌, if◌then◌else◌, inr, ◌⊎◌, ap, refl, ◌∙◌, sym, subst,
}
use seeddb.Common.Value.{str_equal}
use seeddb.Storage.Schema.{Schema}
use seeddb.Storage.Schema.Laws.{str_equal_iff}
use seeddb.Storage.Catalog.{
  Table, Catalog, get_table, create_table, erase_table, drop_table, table_count,
}

-- No name stands twice, and a table has the name that it is found by.
abbrev pub IsMap : Catalog → Type 0
IsMap [] = Unit
IsMap ((n, t) ∷ c) = (get_table c n ≡ none) × (t.name ≡ n) × IsMap c

pub str_equal-cases :
    (a b : Bytes) → ((a ≡ b) × (str_equal a b ≡ true)) ⊎ ((¬ (a ≡ b)) × (str_equal a b ≡ false))
str_equal-cases a b = elim (Bool-cases (str_equal a b)) [
  | inl h ↦ inl ((str_equal_iff a b).0 h, h)
  | inr h ↦ inr ((λ e. cc ((str_equal_iff a b).1 e, h)), h)
]

get_table-erase_table :
    (name : Bytes) (c : Catalog) (k : Bytes)
    → IsMap c
    → get_table (erase_table name c) k ≡ (if str_equal name k then none else get_table c k)
unfolding get_table erase_table
get_table-erase_table name [] k m = elim (Bool-cases (str_equal name k)) [
  | inl h ↦ rw h refl
  | inr h ↦ rw h refl
]
get_table-erase_table name ((n, t) ∷ c) k (new, _, m) = elim (str_equal-cases n name) [
  | inl (same, e) ↦ elim (str_equal-cases name k) [
    | inl (hit, e') ↦ rw (e, e') (ap (get_table c) (sym (same ∙ hit)) ∙ new)
    | inr (miss, e') ↦ rw (e, e') (rw (subst (λ s. str_equal s k ≡ false) (sym same) e') refl)
  ]
  | inr (other, e) ↦ rw e (elim (str_equal-cases n k) [
    | inl (hit, e') ↦
        let apart : str_equal name k ≡ false = elim (str_equal-cases name k) [
          | inl (z, _) ↦ absurd (other (hit ∙ sym z))
          | inr (_, z) ↦ z
        ] in
        rw (e', apart) refl
    | inr (_, e') ↦ rw e' (get_table-erase_table name c k m)
  ])
]

erase_table-IsMap : (name : Bytes) (c : Catalog) → IsMap c → IsMap (erase_table name c)
unfolding erase_table
erase_table-IsMap name [] m = tt
erase_table-IsMap name ((n, t) ∷ c) (new, own, m) = elim (Bool-cases (str_equal n name)) [
  | inl e ↦ rw e m
  | inr e ↦ rw e (
    get_table-erase_table name c n m ∙ blank (str_equal name n) new,
    own,
    erase_table-IsMap name c m,
  )
]
  where
    blank : (b : Bool) {x : Option Table} → x ≡ none → (if b then none else x) ≡ none
    blank true h = refl
    blank false h = h

length-erase_table :
    (name : Bytes) (c : Catalog) (t : Table)
    → get_table c name ≡ some t
    → suc (length (erase_table name c)) ≡ length c
unfolding get_table erase_table
length-erase_table name [] t h = cc
length-erase_table name ((n, u) ∷ c) t h = elim (Bool-cases (str_equal n name)) [
  | inl e ↦ rw e refl
  | inr e ↦ rw e (ap suc (length-erase_table name c t (sym (rw e refl) ∙ h)))
]

abbrev pub CreateOutcome : Bytes → Schema → Catalog → Type 0
CreateOutcome name schema c =
    ((get_table c name ≡ none)
      × (d : Catalog) × (create_table name schema c ≡ (true, d))
      × IsMap d
      × ((k : Bytes)
          → get_table d k ≡ (
              if str_equal name k
              then some (record { name = name; schema = schema })
              else get_table c k))
      × (table_count d ≡ suc (table_count c)))
    ⊎ ((t : Table) × (get_table c name ≡ some t) × (create_table name schema c ≡ (false, c)))

-- In a catalog where no name stands twice: `createTable` of a new name answers true, adds one table
-- with that name and schema, keeps every other one, and no name stands twice afterwards. For a name
-- that exists it answers false and changes nothing.
create_table_lem :
    (name : Bytes) (schema : Schema) (c : Catalog) → IsMap c → CreateOutcome name schema c
unfolding create_table get_table
create_table_lem name schema c m = elim (Option-cases (get_table c name)) [
  | inl new ↦ inl (
    new,
    (name, record { name = name; schema = schema }) ∷ c,
    rw (new, create_table) refl,
    (new, refl, m),
    (λ k. refl),
    refl,
  )
  | inr (t, there) ↦ inr (t, there, rw (there, create_table) refl)
]

abbrev pub DropOutcome : Bytes → Catalog → Type 0
DropOutcome name c =
    ((t : Table) × (get_table c name ≡ some t)
      × (d : Catalog) × (drop_table name c ≡ (true, d))
      × IsMap d
      × ((k : Bytes) → get_table d k ≡ (if str_equal name k then none else get_table c k))
      × (suc (table_count d) ≡ table_count c))
    ⊎ ((get_table c name ≡ none) × (drop_table name c ≡ (false, c)))

-- In a catalog where no name stands twice: `dropTable` of a name that exists answers true, takes
-- away that table and no other, and no name stands twice afterwards. For another name it answers
-- false and changes nothing.
drop_table_lem : (name : Bytes) (c : Catalog) → IsMap c → DropOutcome name c
unfolding drop_table
drop_table_lem name c m = elim (Option-cases (get_table c name)) [
  | inl new ↦ inr (new, rw (new, drop_table) refl)
  | inr (t, there) ↦ inl (
    t,
    there,
    erase_table name c,
    rw (there, drop_table) refl,
    erase_table-IsMap name c m,
    (λ k. get_table-erase_table name c k m),
    length-erase_table name c t there,
  )
]

-- In a catalog where no name stands twice: `createTable` of a new name answers true, adds one table
-- with that name and schema and keeps every other one, and of a name that exists it answers false and
-- changes nothing; `dropTable` of a name that exists answers true and takes away that table and no
-- other, and of another name it answers false and changes nothing. No name stands twice afterwards.
pub catalog_operations :
    (name : Bytes) (schema : Schema) (c : Catalog)
    → IsMap c
    → CreateOutcome name schema c × DropOutcome name c
catalog_operations name schema c m = (create_table_lem name schema c m, drop_table_lem name c m)
