-- ===== src/Executor/Statements/Assignments.antt =====
-- The assignments of UPDATE in src/executor/executor.cpp, column by column.
use seeddb.Base.{
  ℕ, zero, suc, ◌<◌, ◌+◌, List, [], ◌∷◌, Option, none, some, Bytes, length, get_or, ◌≡◌, ◌≢◌, ◌⊎◌,
  inl, inr, refl, sym, ◌∙◌, ap, arith, Option-cases, eq-cases, All, Any, ◌==◌, if◌then◌else◌, subst,
}
use seeddb.Common.Value.{Value, null_value}
use seeddb.Common.Numerics.{Numerics}
use seeddb.Parser.Ast.{Expr}
use seeddb.Storage.Schema.{Row, ColumnSchema, Schema, make_schema, column_index, set_value}
use seeddb.Storage.Schema.Laws.{LastAt, column_index_lem}
use seeddb.Executor.Eval.{evaluate}
use seeddb.Executor.Statements.{assign, copy_row}

-- `get(i)` of a row; NULL behind its end.
abbrev pub value_at : Row → ℕ → Value
value_at row i = get_or row i null_value

-- The index of a schema is never past its columns.
abbrev pub IsIndexed : Schema → Type 0
IsIndexed schema =
    (name : Bytes) (k : ℕ) → column_index schema name ≡ some k → k < length schema.columns

LastAt-lt : (cs : List ColumnSchema) (n : Bytes) (i k : ℕ) → LastAt n i k cs → k < i + length cs
LastAt-lt [] n i k h = absurd h
LastAt-lt (c ∷ cs) n i k (inl (e, named, absent)) = omega (arith, e)
LastAt-lt (c ∷ cs) n i k (inr h) = omega (arith, LastAt-lt cs n (i + 1) k h)

pub make_schema-IsIndexed : (cs : List ColumnSchema) → IsIndexed (make_schema cs)
unfolding make_schema
make_schema-IsIndexed cs n k h = elim (column_index_lem cs n) [
  | inl (absent, e) ↦ absurd (clash (sym e ∙ h))
  | inr (j, at, e) ↦
      subst (λ m. m < length cs) (same (sym e ∙ h)) (omega (arith, LastAt-lt cs n 0 j at))
]
  where
    clash : ¬ (none ≡ some k)
    clash e = cc

    same : {j : ℕ} → some j ≡ some k → j ≡ k
    same e = cc

set_value-cases :
    (row : Row) (i : ℕ) (v : Value)
    → i < length row
    → (new : Row) × (set_value row i v ≡ some new)
      × (length new ≡ length row)
      × ((j : ℕ) → value_at new j ≡ (if i == j then v else value_at row j))
unfolding set_value
set_value-cases [] i v h = absurd (omega arith)
set_value-cases (x ∷ row) zero v h = (v ∷ row, refl, refl, here)
  where
    here : (j : ℕ) → value_at (v ∷ row) j ≡ (if 0 == j then v else value_at (x ∷ row) j)
    here zero = refl
    here (suc j) = ground arith
set_value-cases (x ∷ row) (suc i) v h =
    let (new, e, same, at) = set_value-cases row i v (omega arith) in
    (x ∷ new, rw (e, set_value) refl, ap suc same, there new at)
  where
    there :
        (new : Row)
        → ((j : ℕ) → value_at new j ≡ (if i == j then v else value_at row j))
        → (j : ℕ) → value_at (x ∷ new) j ≡ (if suc i == j then v else value_at (x ∷ row) j)
    there new at zero = ground arith
    there new at (suc j) = at j ∙ ground arith

module _ (num : Numerics) where
  length-copy_row : (cs : List ColumnSchema) (row : Row) → length (copy_row num cs row) ≡ length cs
  length-copy_row [] row = refl
  length-copy_row (c ∷ cs) [] = ap suc (length-copy_row cs [])
  length-copy_row (c ∷ cs) (v ∷ vs) = ap suc (length-copy_row cs vs)

  value_at-copy_row :
      (cs : List ColumnSchema) (row : Row) (i : ℕ)
      → i < length cs
      → value_at (copy_row num cs row) i ≡ value_at row i
  value_at-copy_row [] row i h = absurd (omega arith)
  value_at-copy_row (c ∷ cs) [] zero h = refl
  value_at-copy_row (c ∷ cs) [] (suc i) h = value_at-copy_row cs [] i (omega arith)
  value_at-copy_row (c ∷ cs) (v ∷ vs) zero h = refl
  value_at-copy_row (c ∷ cs) (v ∷ vs) (suc i) h = value_at-copy_row cs vs i (omega arith)

module _ (num : Numerics) (schema : Schema) where
  -- No assignment is to the column.
  abbrev pub NoneTo : ℕ → List (Bytes × Expr) → Type 0
  NoneTo i rest = All (λ (a : Bytes × Expr). column_index schema a.0 ≢ some i) rest

  -- The last assignment to the column has the expression.
  abbrev pub LastTo : ℕ → Expr → List (Bytes × Expr) → Type 0
  LastTo i e [] = ⊥
  LastTo i e ((name, x) ∷ rest) =
      ((column_index schema name ≡ some i) × (x ≡ e) × NoneTo i rest) ⊎ LastTo i e rest

  -- The value of a column behind the assignments: that of the last assignment to it, on the old row,
  -- and the one before where there is none.
  abbrev pub IsUpdated : Row → List (Bytes × Expr) → ℕ → Value → Value → Type 0
  IsUpdated old todo i before v =
      (NoneTo i todo × (v ≡ before))
      ⊎ ((e : Expr) × LastTo i e todo × (v ≡ evaluate num schema old e))

  abbrev pub AllKnown : List (Bytes × Expr) → Type 0
  AllKnown todo = All (λ (a : Bytes × Expr). column_index schema a.0 ≢ none) todo

  abbrev pub SomeUnknown : List (Bytes × Expr) → Type 0
  SomeUnknown todo = Any (λ (a : Bytes × Expr). column_index schema a.0 ≡ none) todo

  abbrev pub AssignOutcome : Row → List (Bytes × Expr) → Row → Option Row → Type 0
  AssignOutcome old todo new none = SomeUnknown todo
  AssignOutcome old todo new (some u) =
      AllKnown todo
      × (length u ≡ length new)
      × ((i : ℕ) → IsUpdated old todo i (value_at new i) (value_at u i))

  more-AssignOutcome :
      (old : Row) (name : Bytes) (e : Expr) (rest : List (Bytes × Expr)) (new new' : Row) (k : ℕ)
      → column_index schema name ≡ some k
      → length new' ≡ length new
      → ((j : ℕ) → value_at new' j ≡ (if k == j then evaluate num schema old e else value_at new j))
      → (result : Option Row) → AssignOutcome old rest new' result
      → AssignOutcome old ((name, e) ∷ rest) new result
  more-AssignOutcome old name e rest new new' k found same at none h = inr h
  more-AssignOutcome old name e rest new new' k found same at (some u) (known, size, values) = (
    ((λ missing. clash (sym missing ∙ found)), known),
    size ∙ same,
    (λ i. elim (values i) [
      | inr (x, last, v) ↦ inr (x, inr last, v)
      | inl (others, v) ↦ elim (eq-cases k i) [
        | inl (here, hit) ↦
            inr (e, inl (found ∙ ap some here, refl, others), v ∙ at i ∙ rw hit refl)
        | inr (apart, miss) ↦
            inl (((λ to. apart (same_index (sym found ∙ to))), others), v ∙ at i ∙ rw miss refl)
      ]
    ]),
  )
    where
      clash : ¬ (none ≡ some k)
      clash h = cc

      same_index : {i : ℕ} → some k ≡ some i → k ≡ i
      same_index h = cc

  pub assign-AssignOutcome :
      (old : Row) (todo : List (Bytes × Expr)) (new : Row)
      → IsIndexed schema
      → length new ≡ length schema.columns
      → AssignOutcome old todo new (assign num schema old todo new)
  unfolding assign
  assign-AssignOutcome old [] new indexed size = (tt, refl, λ i. inl (tt, refl))
  assign-AssignOutcome old ((name, e) ∷ rest) new indexed size =
      elim (Option-cases (column_index schema name)) [
        | inl missing ↦ rw (missing, assign) (inl missing)
        | inr (k, found) ↦
            let below = indexed name k found in
            let (new', set, same, at) =
              set_value-cases new k (evaluate num schema old e) (omega arith) in
            rw (found, set, assign)
              (more-AssignOutcome old name e rest new new' k found same at _
                (assign-AssignOutcome old rest new' indexed (same ∙ size)))
      ]

  -- The row that UPDATE makes of an old one.
  abbrev pub IsNewRow : Row → List (Bytes × Expr) → Row → Type 0
  IsNewRow old todo u =
      (length u ≡ length schema.columns)
      × ((i : ℕ) → i < length schema.columns → IsUpdated old todo i (value_at old i) (value_at u i))

  abbrev pub NewRowOutcome : Row → List (Bytes × Expr) → Option Row → Type 0
  NewRowOutcome old todo none = SomeUnknown todo
  NewRowOutcome old todo (some u) = AllKnown todo × IsNewRow old todo u

  copied-outcome :
      (old : Row) (todo : List (Bytes × Expr)) (result : Option Row)
      → AssignOutcome old todo (copy_row num schema.columns old) result
      → NewRowOutcome old todo result
  copied-outcome old todo none h = h
  copied-outcome old todo (some u) (known, size, values) = (
    known,
    (
      size ∙ length-copy_row num schema.columns old,
      (λ i lt.
          subst (λ b. IsUpdated old todo i b (value_at u i))
            (value_at-copy_row num schema.columns old i lt) (values i)),
    ),
  )

  pub assign-NewRowOutcome :
      (old : Row) (todo : List (Bytes × Expr))
      → IsIndexed schema
      → NewRowOutcome old todo (assign num schema old todo (copy_row num schema.columns old))
  assign-NewRowOutcome old todo indexed = copied-outcome old todo _ (
      assign-AssignOutcome old todo (copy_row num schema.columns old) indexed
        (length-copy_row num schema.columns old))
