-- ===== src/Storage/Schema/Laws.antt =====
-- Lookup by name and row validation of src/storage/schema.h.
use seeddb.Base.{
  ℕ, ◌+◌, true, false, List, [], ◌∷◌, Bytes, if◌then◌else◌, ◌≡◌, Option, none, not, ◌↔◌, ◌≢◌, ◌⊎◌,
  arith, length, some, inl, ◌==◌, inr, refl, Bool-cases, ◌∙◌,
}
use seeddb.Common.Value.{is_null, str_equal}
use seeddb.Storage.Schema.{
  Row, ColumnSchema, Schema, build_index, make_schema, column_index, check_nulls, validate_row,
}

pub str_equal_iff : (a b : Bytes) → (str_equal a b ≡ true) ↔ (a ≡ b)
unfolding str_equal
str_equal_iff (x ∷ a) (y ∷ b) = ground (arith, str_equal_iff a b)
str_equal_iff _ _ = ground arith

-- No column of the list has the name.
abbrev pub Absent : Bytes → List ColumnSchema → Type 0
Absent n [] = Unit
Absent n (c ∷ cs) = (c.name ≢ n) × Absent n cs

-- The list's last column of that name stands at the index, counted from `i`.
abbrev pub LastAt : Bytes → ℕ → ℕ → List ColumnSchema → Type 0
LastAt n i k [] = ⊥
LastAt n i k (c ∷ cs) = ((k ≡ i) × (c.name ≡ n) × Absent n cs) ⊎ LastAt n (i + 1) k cs

build_index-cases :
    (n : Bytes) (i : ℕ) (cs : List ColumnSchema) (m : Bytes → Option ℕ)
    → (Absent n cs × (build_index i cs m n ≡ m n))
      ⊎ ((k : ℕ) × LastAt n i k cs × (build_index i cs m n ≡ some k))
unfolding build_index
build_index-cases n i [] m = inl (tt, refl)
build_index-cases n i (c ∷ cs) m =
    elim (build_index-cases n (i + 1) cs (λ x. if str_equal c.name x then some i else m x)) [
      | inr (k, at, e) ↦ inr (k, inr at, e)
      | inl (absent, e) ↦ elim (Bool-cases (str_equal c.name n)) [
        | inl hit ↦ inr (i, inl (refl, (str_equal_iff c.name n).0 hit, absent), e ∙ rw hit refl)
        | inr miss ↦
            inl (((λ same. cc (miss, (str_equal_iff c.name n).1 same)), absent), e ∙ rw miss refl)
      ]
    ]

-- `columnIndex` on a constructed schema: no index exactly if no column has the name, and otherwise
-- the index of the last column that has it.
pub column_index_lem :
    (cs : List ColumnSchema) (n : Bytes)
    → (Absent n cs × (column_index (make_schema cs) n ≡ none))
      ⊎ ((k : ℕ) × LastAt n 0 k cs × (column_index (make_schema cs) n ≡ some k))
unfolding make_schema column_index
column_index_lem cs n = build_index-cases n 0 cs (λ x. none)

-- Column by column: as many values as columns, and a null only where it is allowed.
abbrev pub Conforms : List ColumnSchema → Row → Type 0
Conforms [] [] = Unit
Conforms [] (v ∷ vs) = ⊥
Conforms (c ∷ cs) [] = ⊥
Conforms (c ∷ cs) (v ∷ vs) = ((c.nullable ≡ true) ⊎ (is_null v ≡ false)) × Conforms cs vs

validate-cases :
    (cs : List ColumnSchema) (row : Row)
    → ((if not (length row == length cs) then false else check_nulls cs row) ≡ true)
      ↔ Conforms cs row
unfolding check_nulls
validate-cases [] [] = ((λ _. tt), (λ _. refl))
validate-cases [] (v ∷ vs) = ((λ h. ground arith), (λ h. absurd h))
validate-cases (c ∷ cs) [] = ((λ h. ground arith), (λ h. absurd h))
validate-cases (c ∷ cs) (v ∷ vs) = (
  (λ h. (ground arith, (validate-cases cs vs).0 (ground arith))),
  (λ h. ground (arith, (validate-cases cs vs).1 h.1)),
)

-- `validateRow` accepts a row exactly if it conforms to the schema.
pub validate_row_lem :
    (s : Schema) (row : Row) → (validate_row s row ≡ true) ↔ Conforms s.columns row
unfolding validate_row
validate_row_lem s row = validate-cases s.columns row
