-- ===== src/Executor/Statements/Changes.antt =====
-- What the statements of src/executor/executor.cpp hand to the storage manager and leave in the
-- catalog.
use seeddb.Base.{
  true, false, Bool, List, [], ◌∷◌, map, Option, none, some, ◌≡◌, ◌⊎◌, refl, subst, Bool-cases, inl,
  inr,
}
use seeddb.Common.Numerics.{Numerics}
use seeddb.Storage.PageId.{Tid}
use seeddb.Storage.Schema.{Row, Schema, make_schema, validate_row}
use seeddb.Storage.Schema.Laws.{Conforms, validate_row_lem}
use seeddb.Storage.Catalog.{Table, Catalog, get_table}
use seeddb.Executor.Eval.{where_holds}
use seeddb.Executor.Statements.Assignments.{
  IsIndexed, AllKnown, SomeUnknown, IsNewRow, NewRowOutcome, assign-NewRowOutcome,
}
use seeddb.Executor.Statements.{
  ErrorCode, ExecutionResult, empty, error, column_not_found, constraint_violation, duplicate_table,
  io_error, UpdateStmt, CreateTableStmt, TableStore, Collected, failed, collected, and_update,
  collect_updates, tids_to_delete, assign, copy_row, to_columns,
}

module _ (num : Numerics) (schema : Schema) (stmt : UpdateStmt) where
  -- The old row is changed into a row that the schema allows.
  abbrev pub Makes : Row → Row → Type 0
  Makes old u =
      AllKnown num schema stmt.assignments
      × IsNewRow num schema old stmt.assignments u
      × Conforms schema.columns u

  -- Why the old row cannot be changed.
  abbrev pub Refuses : Row → ErrorCode → Type 0
  Refuses old e =
      ((e ≡ column_not_found) × SomeUnknown num schema stmt.assignments)
      ⊎ ((e ≡ constraint_violation)
          × AllKnown num schema stmt.assignments
          × (u : Row) × IsNewRow num schema old stmt.assignments u
          × ¬ Conforms schema.columns u)

  abbrev pub selects : Row → Bool
  selects row = where_holds num schema row stmt.where_clause

  -- The first of the selected rows that cannot be changed gives the error.
  abbrev pub FirstRefused : List (Tid × Row) → ErrorCode → Type 0
  FirstRefused [] e = ⊥
  FirstRefused ((tid, old) ∷ rows) e =
      ((selects old ≡ false) × FirstRefused rows e)
      ⊎ ((selects old ≡ true) × (Refuses old e ⊎ ((u : Row) × Makes old u × FirstRefused rows e)))

  -- Exactly the selected rows are changed, in their order.
  abbrev pub Changed : List (Tid × Row) → List (Tid × Row) → Type 0
  Changed [] us = us ≡ []
  Changed ((tid, old) ∷ rows) us =
      ((selects old ≡ false) × Changed rows us)
      ⊎ ((selects old ≡ true)
          × (u : Row) × (rest : List (Tid × Row)) × (us ≡ (tid, u) ∷ rest)
          × Makes old u
          × Changed rows rest)

  abbrev pub CollectOutcome : List (Tid × Row) → Collected num → Type 0
  CollectOutcome rows (failed e) = FirstRefused rows e
  CollectOutcome rows (collected us) =
      Changed rows us × (map (λ u. u.0) us ≡ tids_to_delete num schema stmt.where_clause rows)

  and_update-outcome :
      (tid : Tid) (old new : Row) (rows : List (Tid × Row)) (rest : Collected num)
      → selects old ≡ true
      → Makes old new
      → CollectOutcome rows rest
      → CollectOutcome ((tid, old) ∷ rows) (and_update num tid new rest)
  unfolding tids_to_delete
  and_update-outcome tid old new rows (failed e) w made h = inr (w, inr (new, made, h))
  and_update-outcome tid old new rows (collected us) w made (changed, same) =
      (inr (w, new, us, refl, made, changed), rw (w, same) refl)

  skip-outcome :
      (tid : Tid) (old : Row) (rows : List (Tid × Row)) (rest : Collected num)
      → selects old ≡ false
      → CollectOutcome rows rest
      → CollectOutcome ((tid, old) ∷ rows) rest
  unfolding tids_to_delete
  skip-outcome tid old rows (failed e) w h = inl (w, h)
  skip-outcome tid old rows (collected us) w (changed, same) = (inl (w, changed), rw (w, same) refl)

  -- What the assignments give, with the equation for it.
  assigned-cases :
      (old : Row)
      → IsIndexed schema
      → ((assign num schema old stmt.assignments (copy_row num schema.columns old) ≡ none)
          × SomeUnknown num schema stmt.assignments)
        ⊎ ((new : Row) × (assign num schema old stmt.assignments (copy_row num schema.columns old)
              ≡ some new)
            × AllKnown num schema stmt.assignments
            × IsNewRow num schema old stmt.assignments new)
  assigned-cases old indexed =
      from _ refl (assign-NewRowOutcome num schema old stmt.assignments indexed)
    where
      from :
          (result : Option Row)
          → assign num schema old stmt.assignments (copy_row num schema.columns old) ≡ result
          → NewRowOutcome num schema old stmt.assignments
              (assign num schema old stmt.assignments (copy_row num schema.columns old))
          → ((assign num schema old stmt.assignments (copy_row num schema.columns old) ≡ none)
              × SomeUnknown num schema stmt.assignments)
            ⊎ ((new : Row) × (assign num schema old stmt.assignments
                    (copy_row num schema.columns old)
                  ≡ some new)
                × AllKnown num schema stmt.assignments
                × IsNewRow num schema old stmt.assignments new)
      from none e h = inl (e, subst (NewRowOutcome num schema old stmt.assignments) e h)
      from (some new) e h =
          let (known, shape) = subst (NewRowOutcome num schema old stmt.assignments) e h in
          inr (new, e, known, shape)

  -- The first pass of UPDATE, on a schema whose name index stays below its columns. It succeeds with
  -- exactly the rows that the WHERE clause selects, in their order, which are the rows that DELETE with
  -- the same clause would delete: each with a row that conforms to the schema, in which a column has
  -- the value of the last assignment to it, evaluated on the old row, or its old value. Or it fails with
  -- the error of the first selected row that cannot be changed: COLUMN_NOT_FOUND if a name among the
  -- assignments is of no column, and CONSTRAINT_VIOLATION if all are of columns and the new row does
  -- not conform.
  pub collect_updates-outcome :
      (rows : List (Tid × Row))
      → IsIndexed schema
      → CollectOutcome rows (collect_updates num schema stmt rows)
  unfolding collect_updates tids_to_delete
  collect_updates-outcome [] indexed = (refl, refl)
  collect_updates-outcome ((tid, old) ∷ rows) indexed =
      let rest = collect_updates num schema stmt rows in
      let h = collect_updates-outcome rows indexed in
      elim (Bool-cases (where_holds num schema old stmt.where_clause)) [
        | inr w ↦ rw w (skip-outcome tid old rows rest w h)
        | inl w ↦ elim (assigned-cases old indexed) [
          | inl (missing, unknown) ↦ rw (w, missing) (inr (w, inl (inl (refl, unknown))))
          | inr (new, there, known, shape) ↦ elim (Bool-cases (validate_row schema new)) [
            | inr bad ↦
                rw (w, there, bad) (inr (w, inl (inr (refl, known, new, shape, refused new bad))))
            | inl good ↦
                rw (w, there, good)
                  (and_update-outcome tid old new rows rest w
                    (known, shape, (validate_row_lem schema new).0 good) h)
          ]
        ]
      ]
    where
      refused : (new : Row) → validate_row schema new ≡ false → ¬ Conforms schema.columns new
      refused new bad fits = cc (bad, (validate_row_lem schema new).1 fits)

module _ (num : Numerics) (ts : TableStore) where
  abbrev new_schema : CreateTableStmt → Schema
  new_schema stmt = make_schema (to_columns stmt.columns)

  abbrev with_table : CreateTableStmt → Catalog → Catalog
  with_table stmt c =
      (stmt.table_name, record { name = stmt.table_name; schema = new_schema stmt }) ∷ c

  -- What the storage manager makes of the new table: its answer, and its state behind the call.
  abbrev made : CreateTableStmt → ts.Store → Bool × ts.Store
  made stmt s = ts.on_create_table stmt.table_name (new_schema stmt) s

  -- The answer for a name that is new.
  abbrev NewOutcome :
      CreateTableStmt
      → Catalog
      → Option ts.Store
      → ExecutionResult × (Catalog × Option ts.Store)
      → Type 0
  NewOutcome stmt c none result = result ≡ (empty 0, (with_table stmt c, none))
  NewOutcome stmt c (some s) result =
      (((made stmt s).0 ≡ true) × (result ≡ (empty 0, (with_table stmt c, some (made stmt s).1))))
      ⊎ (((made stmt s).0 ≡ false) × (result ≡ (error io_error, (c, some (made stmt s).1))))

  abbrev pub CreateStmtOutcome :
      CreateTableStmt
      → Catalog
      → Option ts.Store
      → ExecutionResult × (Catalog × Option ts.Store)
      → Type 0
  CreateStmtOutcome stmt c store result =
      ((t : Table) × (get_table c stmt.table_name ≡ some t)
        × (result ≡ (error duplicate_table, (c, store))))
      ⊎ ((get_table c stmt.table_name ≡ none) × NewOutcome stmt c store result)
