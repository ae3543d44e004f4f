-- ===== src/Executor/Joins/Columns.antt =====
-- Columns of joined rows in src/executor/executor.cpp: which table a column name is read from.
use seeddb.Base.{
  get_or, ℕ, ◌+◌, ◌≤◌, ◌<◌, Bool, true, false, List, [], ◌∷◌, ◌++◌, Option, none, some, Bytes,
  if◌then◌else◌, ◌≡◌, refl, ap, ◌∙◌, sym, arith, Bool-cases, inl, inr, length, get_or-append_left,
  get_or-append_right,
}
use mathlib.Core.Option
use seeddb.Common.LogicalType.{integer}
use seeddb.Common.Value.{Value, null_value, as_int32, str_equal}
use seeddb.Common.Numerics.{Numerics}
use seeddb.Storage.Schema.{
  Row, ColumnSchema, Schema, build_index, make_schema, column_index, has_column,
}
use seeddb.Storage.Schema.Laws.{LastAt, column_index_lem}
use seeddb.Parser.Ast.{binary, eq_op, column_ref, an_expr}
use seeddb.Executor.Operators.{binary_value, strict_binary, to_double}
use seeddb.Executor.Eval.{evaluate, column_value, where_holds, holds}
use seeddb.Executor.Joins.{combined_schema}

abbrev or_else : Option ℕ → Option ℕ → Option ℕ
or_else none p = p
or_else (some k) p = some k

build_index-append :
    (i j : ℕ) (xs ys : List ColumnSchema) (m : Bytes → Option ℕ)
    → j ≡ i + length xs
    → build_index i (xs ++ ys) m ≡ build_index j ys (build_index i xs m)
unfolding build_index
build_index-append i j [] ys m e = let e' : i ≡ j = omega arith in ap (λ k. build_index k ys m) e'
build_index-append i j (x ∷ xs) ys m e = build_index-append (i + 1) j xs ys _ (omega arith)

-- A column list that is looked up `d` places further on, before another lookup.
build_index-shift :
    (d i j : ℕ) (ys : List ColumnSchema) (m m' : Bytes → Option ℕ) (p : Option ℕ) (n : Bytes)
    → j ≡ d + i
    → m n ≡ or_else (Option.map (◌+◌ d) (m' n)) p
    → build_index j ys m n ≡ or_else (Option.map (◌+◌ d) (build_index i ys m' n)) p
unfolding build_index
build_index-shift d i j [] m m' p n e h = h
build_index-shift d i j (y ∷ ys) m m' p n e h =
    build_index-shift d (i + 1) (j + 1) ys _ _ p n (omega arith)
      (elim (Bool-cases (str_equal y.name n)) [
        | inl hit ↦ rw hit (ap some e)
        | inr miss ↦ rw miss h
      ])

-- A column of the joined rows is the right table's, if it has the name, and else the left one's.
column_index-combined :
    (ls rs : List ColumnSchema) (n : Bytes)
    → column_index (combined_schema (make_schema ls) (make_schema rs)) n
      ≡ or_else
          (Option.map (◌+◌ (length ls)) (column_index (make_schema rs) n))
          (column_index (make_schema ls) n)
unfolding combined_schema column_index make_schema
column_index-combined ls rs n =
    ap (λ (f : Bytes → Option ℕ). f n)
      (build_index-append 0 (length ls) ls rs (λ x. none) (omega arith))
    ∙ build_index-shift (length ls) 0 (length ls) rs (build_index 0 ls (λ x. none)) (λ x. none)
        (build_index 0 ls (λ x. none) n) n (omega arith) refl

LastAt-lt : (n : Bytes) (i k : ℕ) (cs : List ColumnSchema) → LastAt n i k cs → k < i + length cs
LastAt-lt n i k [] h = absurd h
LastAt-lt n i k (c ∷ cs) (inl h) = omega arith
LastAt-lt n i k (c ∷ cs) (inr h) = omega (arith, LastAt-lt n (i + 1) k cs h)

index-lt :
    (cs : List ColumnSchema) (n : Bytes) (k : ℕ)
    → column_index (make_schema cs) n ≡ some k
    → k < length cs
index-lt cs n k e = elim (column_index_lem cs n) [
  | inl (_, missing) ↦ cc
  | inr (k', at, e') ↦ ground (arith, LastAt-lt n 0 k' cs at)
]

abbrev read_at : Row → Option ℕ → Value
read_at row none = null_value
read_at row (some i) = get_or row i null_value

abbrev is_some : Option ℕ → Bool
is_some none = false
is_some (some i) = true

joined_read :
    (d : ℕ) (left right : Row) (o p : Option ℕ)
    → length left ≡ d
    → ((k : ℕ) → p ≡ some k → k < d)
    → read_at (left ++ right) (or_else (Option.map (◌+◌ d) o) p)
      ≡ (if is_some o then read_at right o else read_at left p)
joined_read d left right (some k) p fits below =
    get_or-append_right left right (d + k) k null_value (omega arith)
joined_read d left right none none fits below = refl
joined_read d left right none (some k) fits below =
    get_or-append_left left right k null_value (omega (arith, below k refl))

joined_index :
    (d i : ℕ) (o p : Option ℕ)
    → is_some o ≡ true
    → or_else (Option.map (◌+◌ d) o) p ≡ some i
    → d ≤ i
joined_index d i none p h e = cc
joined_index d i (some k) p h e = ground arith

read_at-column_value :
    (s : Schema) (row : Row) (n : Bytes) → column_value s row n ≡ read_at row (column_index s n)
unfolding column_value
read_at-column_value s row n = ground arith

is_some-has_column : (s : Schema) (n : Bytes) → has_column s n ≡ is_some (column_index s n)
unfolding has_column column_index
is_some-has_column s n = ground arith

-- On a joined row of a left row with a value for each column, a column reference is read from the right
-- row by the right table's schema if that has the name, and else from the left row, whatever table the
-- reference names.
pub column_value-combined :
    (num : Numerics) (ls rs : List ColumnSchema) (left right : Row) (table name : Bytes)
    → length left ≡ length ls
    → evaluate num
        (combined_schema (make_schema ls) (make_schema rs))
        (left ++ right)
        (column_ref table name)
      ≡ (if has_column (make_schema rs) name
          then column_value (make_schema rs) right name
          else column_value (make_schema ls) left name)
unfolding evaluate
column_value-combined num ls rs left right table name fits =
    rw
      (
        read_at-column_value (combined_schema (make_schema ls) (make_schema rs)) (left ++ right)
            name,
        read_at-column_value (make_schema rs) right name,
        read_at-column_value (make_schema ls) left name,
        is_some-has_column (make_schema rs) name,
        column_index-combined ls rs name,
      )
      (joined_read (length ls) left right (column_index (make_schema rs) name)
        (column_index (make_schema ls) name) fits (index-lt ls name))

-- In an inner join, a condition that compares columns of one name, `a.id = b.id`, holds for every
-- pair whose right row has an INTEGER there, whatever the left row has: if an integer as a double
-- equals itself.
pub same_name_condition-holds :
    (num : Numerics) (ls rs : List ColumnSchema) (left right : Row) (a b name : Bytes)
    → ((n : ℕ) → num.tests.eq64 (num.of_int32 n) (num.of_int32 n) ≡ true)
    → length left ≡ length ls
    → has_column (make_schema rs) name ≡ true
    → (column_value (make_schema rs) right name).type ≡ integer
    → where_holds num
        (combined_schema (make_schema ls) (make_schema rs))
        (left ++ right)
        (an_expr (binary eq_op (column_ref a name) (column_ref b name)))
      ≡ true
unfolding where_holds holds evaluate binary_value strict_binary to_double
same_name_condition-holds num ls rs left right a b name same fits has int =
    let read : column_value (combined_schema (make_schema ls) (make_schema rs)) (left ++ right) name
        ≡ column_value (make_schema rs) right name =
      column_value-combined num ls rs left right a name fits ∙ ground arith in
    ground (arith, same (as_int32 (column_value (make_schema rs) right name)))

-- In the last of several joins the rows have a value for each joined column already, the right
-- table's included: a column of the right table is then looked up behind the end of the joined row.
pub last_join-out_of_range :
    (joined rs : List ColumnSchema) (row : Row) (name : Bytes) (i : ℕ)
    → length row ≡ length joined
    → has_column (make_schema rs) name ≡ true
    → column_index (combined_schema (make_schema joined) (make_schema rs)) name ≡ some i
    → length row ≤ i
last_join-out_of_range joined rs row name i fits has found =
    let within : length joined ≤ i =
      joined_index (length joined) i _ _ (sym (is_some-has_column (make_schema rs) name) ∙ has)
        (sym (column_index-combined joined rs name) ∙ found) in
    omega arith
