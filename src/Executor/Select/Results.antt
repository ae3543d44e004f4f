-- ===== src/Executor/Select/Results.antt =====
-- The rows that a SELECT of src/executor/executor.cpp gives, for any `std::sort` that permutes.
use seeddb.Base.{
  ℕ, Bool, true, false, List, [], ◌∷◌, map, Option, none, some, ◌≡◌, refl, ap, ◌∙◌, sym, subst,
  arith, Bool-cases, inl, inr, if◌then◌else◌, length, leb, All, Any, Sublist-All, take-All,
  drop-All, All-map,
}
use mathlib.Core.List.Permᴰ
use mathlib.Core.List.{Permᴰ}
use seeddb.Common.Numerics.{Numerics}
use seeddb.Storage.Schema.{Row, Schema, make_schema}
use seeddb.Executor.Eval.{where_holds}
use seeddb.Executor.Rows.{apply_distinct, apply_limit_offset, copy_rows}
use seeddb.Executor.Rows.Distinct.{apply_distinct_lem}
use seeddb.Executor.Rows.Window.{copy_rows-take}
use seeddb.Executor.Joins.Pairs.{filter}
use seeddb.Executor.Select.{
  SelectStmt, OrderByItem, AliasMap, project_row, row_before, sort_result_rows, scan, finish,
  select_columns, select_rows,
}

Permᴰ-All {ℓ} : {A : Type ℓ} (P : A → Type 0) {xs ys : List A} → Permᴰ xs ys → All P xs → All P ys
Permᴰ-All P Permᴰ.nil h = tt
Permᴰ-All P (Permᴰ.cons e d) (hx, h) = (subst P e hx, Permᴰ-All P d h)
Permᴰ-All P (Permᴰ.swap e e') (hx, (hy, h)) = (subst P e' hy, (subst P e hx, h))
Permᴰ-All P (Permᴰ.trans d d') h = Permᴰ-All P d' (Permᴰ-All P d h)

-- The row passes WHERE, and its projection is the result.
abbrev pub Selects : Numerics → SelectStmt → Schema → Row → Row → Type 0
Selects num stmt schema out row =
    (where_holds num schema row stmt.where_clause ≡ true) × (out ≡ project_row num stmt schema row)

window-All :
    (P : Row → Type 0) (offset n : ℕ) (rows : List Row)
    → All P rows
    → All P (if leb (length rows) offset then [] else copy_rows rows offset n)
window-All P offset n rows h = elim (Bool-cases (leb (length rows) offset)) [
  | inl e ↦ rw e tt
  | inr e ↦ rw (e, copy_rows-take rows offset n) (take-All P n _ (drop-All P offset rows h))
]

apply_limit_offset-All :
    (P : Row → Type 0) (limit offset : Option ℕ) (rows : List Row)
    → All P rows
    → All P (apply_limit_offset limit offset rows)
unfolding apply_limit_offset
apply_limit_offset-All P none none rows h = h
apply_limit_offset-All P (some n) none rows h = window-All P 0 _ rows h
apply_limit_offset-All P none (some k) rows h = window-All P k _ rows h
apply_limit_offset-All P (some n) (some k) rows h = window-All P k _ rows h

module _ (num : Numerics) (sort : (Row → Row → Bool) → List Row → List Row)
    (sort-Permᴰ : (before : Row → Row → Bool) (rows : List Row)
      → Permᴰ rows (sort before rows)) where
  sort_result_rows-Permᴰ :
      (stmt : SelectStmt) (aliases : AliasMap) (schema : Schema) (rows : List Row)
      → Permᴰ rows (sort_result_rows num sort stmt aliases schema rows)
  unfolding sort_result_rows
  sort_result_rows-Permᴰ stmt aliases schema rows = go stmt.order_by
    where
      go :
          (items : List OrderByItem)
          → Permᴰ rows (elim items [
            | [] ↦ rows
            | item ∷ rest ↦ sort (row_before num aliases schema (item ∷ rest)) rows
          ])
      go [] = Permᴰ.refl rows
      go (item ∷ rest) = sort-Permᴰ _ rows

  scan-All :
      (stmt : SelectStmt) (schema : Schema) (rows out : List Row)
      → scan num stmt schema rows ≡ out
      → All (λ r. Any (Selects num stmt schema r) rows) out
  unfolding scan
  scan-All stmt schema [] out e = subst (All _) e tt
  scan-All stmt schema (row ∷ rows) out e =
      let later : All (λ r. Any (Selects num stmt schema r) (row ∷ rows))
          (scan num stmt schema rows) =
        All-map _ _ (λ r. inr) (scan num stmt schema rows) (scan-All stmt schema rows _ refl) in
      elim (Bool-cases (where_holds num schema row stmt.where_clause)) [
        | inl h ↦
            let e' : project_row num stmt schema row ∷ scan num stmt schema rows ≡ out =
              rw h at e in
            subst (All _) e' (inl (h, refl), later)
        | inr h ↦ let e' : scan num stmt schema rows ≡ out = rw h at e in subst (All _) e' later
      ]

  finish-All :
      (P : Row → Type 0) (stmt : SelectStmt) (aliases : AliasMap) (schema : Schema)
      (rows : List Row)
      → All P rows
      → All P (finish num sort stmt aliases schema rows)
  unfolding finish
  finish-All P stmt aliases schema rows h =
      apply_limit_offset-All P stmt.limit stmt.offset _
        (Permᴰ-All P (sort_result_rows-Permᴰ stmt aliases schema _) (distinct stmt.distinct))
    where
      distinct : (d : Bool) → All P (apply_distinct num.tests d rows)
      distinct true = Sublist-All P (apply_distinct_lem num.tests rows).0 h
      distinct false = subst (All P) (sym (apply_distinct_lem num.tests rows).3) h

  -- Both branches finish the scan, each on its own result schema.
  select_rows-finish :
      (stmt : SelectStmt) (schema : Schema) (rows : List Row)
      → (result : AliasMap × Schema) × (select_rows num sort stmt schema rows
          ≡ finish num sort stmt result.0 result.1 (scan num stmt schema rows))
  unfolding select_rows
  select_rows-finish stmt schema rows =
      let (columns, aliases) = select_columns schema stmt.select_items [] [] in
      either stmt.select_all ([], make_schema schema.columns) (aliases, make_schema columns)
    where
      finished : AliasMap × Schema → List Row
      finished p = finish num sort stmt p.0 p.1 (scan num stmt schema rows)

      either :
          (b : Bool) (p q : AliasMap × Schema)
          → (result : AliasMap × Schema) × ((if b then finished p else finished q)
              ≡ finished result)
      either true p q = (p, refl)
      either false p q = (q, refl)

  -- Every result row is the projection of a row that passes WHERE, for any sort that permutes the rows,
  -- with or without DISTINCT, ORDER BY, LIMIT and OFFSET.
  pub select_rows-Selects :
      (stmt : SelectStmt) (schema : Schema) (rows : List Row)
      → All (λ out. Any (Selects num stmt schema out) rows) (select_rows num sort stmt schema rows)
  select_rows-Selects stmt schema rows =
      let (_, e) = select_rows-finish stmt schema rows in
      subst (All _) (sym e) (
        finish-All (λ out. Any (Selects num stmt schema out) rows) stmt _ _ _
          (scan-All stmt schema rows _ refl))

  scan-filter :
      (stmt : SelectStmt) (schema : Schema) (rows : List Row)
      → scan num stmt schema rows
        ≡ map
            (project_row num stmt schema)
            (filter (λ row. where_holds num schema row stmt.where_clause) rows)
  unfolding scan
  scan-filter stmt schema [] = refl
  scan-filter stmt schema (row ∷ rows) = ground (arith, scan-filter stmt schema rows)

  finish-Permᴰ :
      (stmt : SelectStmt) (aliases : AliasMap) (schema : Schema) (rows : List Row)
      → stmt.distinct ≡ false
      → stmt.limit ≡ none
      → stmt.offset ≡ none
      → Permᴰ rows (finish num sort stmt aliases schema rows)
  unfolding finish
  finish-Permᴰ stmt aliases schema rows d l o =
      subst (Permᴰ rows)
        (ap (sort_result_rows num sort stmt aliases schema) (sym (plain stmt.distinct d))
          ∙ sym (whole stmt.limit stmt.offset _ l o))
        (sort_result_rows-Permᴰ stmt aliases schema rows)
    where
      plain : (b : Bool) → b ≡ false → apply_distinct num.tests b rows ≡ rows
      plain false e = (apply_distinct_lem num.tests rows).3
      plain true e = cc

      whole :
          (limit offset : Option ℕ) (xs : List Row)
          → limit ≡ none
          → offset ≡ none
          → apply_limit_offset limit offset xs ≡ xs
      whole limit offset xs e e' = rw (e, e', apply_limit_offset) refl

  -- Without DISTINCT, LIMIT and OFFSET the result rows are the projections of the rows that pass WHERE,
  -- each as often as it comes, for any sort that permutes the rows.
  pub select_rows-Permᴰ :
      (stmt : SelectStmt) (schema : Schema) (rows : List Row)
      → stmt.distinct ≡ false
      → stmt.limit ≡ none
      → stmt.offset ≡ none
      → Permᴰ
          (map
            (project_row num stmt schema)
            (filter (λ row. where_holds num schema row stmt.where_clause) rows))
          (select_rows num sort stmt schema rows)
  select_rows-Permᴰ stmt schema rows d l o =
      let (result, e) = select_rows-finish stmt schema rows in
      subst (Permᴰ _) (sym e) (
        subst (λ xs. Permᴰ xs (finish num sort stmt result.0 result.1 (scan num stmt schema rows)))
          (scan-filter stmt schema rows) (finish-Permᴰ stmt result.0 result.1 _ d l o))
