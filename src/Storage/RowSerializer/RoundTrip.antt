-- ===== src/Storage/RowSerializer/RoundTrip.antt =====
-- Rows survive `RowSerializer` of src/storage/row_serializer.h.
use mathlib.Core.Option.{some}
use seeddb.Base.{
  ℕ, ◌+◌, List, [], ◌∷◌, ◌++◌, true, false, Bytes, ◌<◌, ◌≡◌, length, ◌%◌, ◌^◌, ◌⊎◌, Bool, arith,
  drop, encode, take, length-encode, refl, subst, drop-append_length, ltb, take-append_length,
  le→ltb_false, length-append, decode-encode, ap, if◌then◌else◌, not, ◌-◌, append-nil, append_assoc,
  inl, sym, ◌==◌, inr, ◌∙◌,
}
use seeddb.Common.LogicalType.{
  LogicalTypeId, sql_null, integer, bigint, float, double, varchar, boolean, unknown,
}
use seeddb.Common.Value.{
  Value, is_null, null_value, integer_value, bigint_value, float_value, double_value, varchar_value,
  boolean_value,
}
use seeddb.Storage.Schema.{Row, ColumnSchema}
use seeddb.Storage.RowSerializer.{
  payload_size, total_size, payload, write_columns, serialize, take_word, read_payload, read_column,
  deserialize,
}
use seeddb.Storage.RowSerializer.Bounds.{length-payload}

-- What the factory of a type makes, of a number in the type's range or a string whose length fits
-- a `uint32_t`.
abbrev pub IsOf : LogicalTypeId → Value → Type 0
IsOf integer v = (n : ℕ) × (n < 2 ^ 32) × (v ≡ integer_value n)
IsOf bigint v = (n : ℕ) × (n < 2 ^ 64) × (v ≡ bigint_value n)
IsOf float v = (n : ℕ) × (n < 2 ^ 32) × (v ≡ float_value n)
IsOf double v = (n : ℕ) × (n < 2 ^ 64) × (v ≡ double_value n)
IsOf boolean v = (b : Bool) × (v ≡ boolean_value b)
IsOf varchar v = (s : Bytes) × (length s < 2 ^ 32) × (v ≡ varchar_value s)
IsOf _ v = ⊥

-- A row of the schema's shape: each value is null or of its column's type.
abbrev pub IsTyped : List ColumnSchema → Row → Type 0
IsTyped [] [] = Unit
IsTyped [] (v ∷ vs) = ⊥
IsTyped (c ∷ cs) [] = ⊥
IsTyped (c ∷ cs) (v ∷ vs) = ((v ≡ null_value) ⊎ IsOf c.type v) × IsTyped cs vs

take-append_eq : (n : ℕ) (xs ys : Bytes) → length xs ≡ n → take n (xs ++ ys) ≡ xs
take-append_eq n xs ys e = subst (λ k. take k (xs ++ ys) ≡ xs) e (take-append_length xs ys)

drop-append_eq : (n : ℕ) (xs ys : Bytes) → length xs ≡ n → drop n (xs ++ ys) ≡ ys
drop-append_eq n xs ys e = subst (λ k. drop k (xs ++ ys) ≡ ys) e (drop-append_length xs ys)

take_word-encode :
    (w n : ℕ) (make : ℕ → Value) (rest : Bytes)
    → n < 256 ^ w
    → take_word w make (encode w n ++ rest) ≡ (make n, rest)
unfolding take_word
take_word-encode w n make rest h =
    let len = length-encode w n in
    let enough : ltb (length (encode w n ++ rest)) w ≡ false =
      le→ltb_false _ w (omega (arith, length-append (encode w n) rest)) in
    rw enough (
      rw
        (
          take-append_eq w (encode w n) rest len,
          drop-append_eq w (encode w n) rest len,
          decode-encode w n h,
        )
        refl)

read_varchar :
    (s rest : Bytes)
    → length s < 2 ^ 32
    → read_payload varchar (payload varchar (varchar_value s) ++ rest) ≡ (varchar_value s, rest)
unfolding read_payload payload
read_varchar s rest h =
    let n : length s % 2 ^ 32 ≡ length s = omega arith in
    let all : take (length s) s ≡ s =
      ap (take (length s)) (sym (append-nil s)) ∙ take-append_length s [] in
    let len = length-encode 4 (length s) in
    let head = take-append_eq 4 (encode 4 (length s)) (s ++ rest) len in
    let tail = drop-append_eq 4 (encode 4 (length s)) (s ++ rest) len in
    let value = decode-encode 4 (length s) h in
    let enough : ltb (length (encode 4 (length s) ++ (s ++ rest))) 4 ≡ false =
      le→ltb_false _ 4 (omega (arith, length-append (encode 4 (length s)) (s ++ rest))) in
    let more : ltb (length (s ++ rest)) (length s) ≡ false =
      le→ltb_false _ (length s) (omega (arith, length-append s rest)) in
    rw n (
      rw all (
        rw (append_assoc (encode 4 (length s)) s rest) (
          rw (enough, head, tail, value)
            (rw (more, take-append_length s rest, drop-append_length s rest) refl))))

-- One value with its flag is read back, and the bytes behind it are left.
read_column-payload :
    (t : LogicalTypeId) (v : Value) (rest : Bytes)
    → IsOf t v
    → (is_null v ≡ false) × (read_column t (0 ∷ payload t v ++ rest) ≡ (v, rest))
unfolding read_column read_payload payload is_null
read_column-payload integer v rest (n, lt, e) =
    let small : n % 2 ^ 32 ≡ n = omega arith in
    rw e (refl, rw small (take_word-encode 4 n integer_value rest lt))
read_column-payload bigint v rest (n, lt, e) =
    rw e (refl, take_word-encode 8 n bigint_value rest lt)
read_column-payload float v rest (n, lt, e) =
    let small : n % 2 ^ 32 ≡ n = omega arith in
    rw e (refl, rw small (take_word-encode 4 n float_value rest lt))
read_column-payload double v rest (n, lt, e) =
    rw e (refl, take_word-encode 8 n double_value rest lt)
read_column-payload boolean v rest (true, e) =
    rw e (refl, take_word-encode 1 1 (λ x. boolean_value (not (x == 0))) rest (omega arith))
read_column-payload boolean v rest (false, e) =
    rw e (refl, take_word-encode 1 0 (λ x. boolean_value (not (x == 0))) rest (omega arith))
read_column-payload varchar v rest (s, lt, e) = rw e (refl, read_varchar s rest lt)
read_column-payload sql_null v rest h = absurd h
read_column-payload (unknown n) v rest h = absurd h

IsOf-str : (t : LogicalTypeId) (v : Value) → IsOf t v → length v.str < 2 ^ 32
IsOf-str integer v (n, lt, e) = rw e (omega arith)
IsOf-str bigint v (n, lt, e) = rw e (omega arith)
IsOf-str float v (n, lt, e) = rw e (omega arith)
IsOf-str double v (n, lt, e) = rw e (omega arith)
IsOf-str boolean v (b, e) = rw e (omega arith)
IsOf-str varchar v (s, lt, e) = rw e lt
IsOf-str sql_null v h = absurd h
IsOf-str (unknown n) v h = absurd h

-- The bytes of one column, as the second pass writes them.
abbrev column_bytes : LogicalTypeId → Value → Bytes
column_bytes t v = if is_null v then 1 ∷ [] else 0 ∷ payload t v

read_column_bytes :
    (t : LogicalTypeId) (v : Value) (rest : Bytes)
    → (v ≡ null_value) ⊎ IsOf t v
    → (read_column t (column_bytes t v ++ rest) ≡ (v, rest))
      × (length (column_bytes t v) ≡ (if is_null v then 1 else 1 + payload_size t v))
read_column_bytes t v rest (inl e) = rw e (unfold is_null read_column in (refl, refl))
read_column_bytes t v rest (inr h) =
    let (there, back) = read_column-payload t v rest h in
    rw there (back, omega (arith, length-payload t v (IsOf-str t v h)))

-- Both passes on a typed row: the sizes agree, and the bytes are read back before any others.
passes :
    (cs : List ColumnSchema) (row : Row)
    → IsTyped cs row
    → (bs : Bytes) × (total_size cs row ≡ some (length bs))
      × (write_columns cs row ≡ some bs)
      × ((rest : Bytes) → deserialize cs (bs ++ rest) ≡ row)
unfolding total_size write_columns deserialize
passes [] [] t = ([], refl, refl, (λ rest. refl))
passes [] (v ∷ vs) t = absurd t
passes (c ∷ cs) [] t = absurd t
passes (c ∷ cs) (v ∷ vs) (fits, t) =
    let (bs, total, written, back) = passes cs vs t in
    (
      column_bytes c.type v ++ bs,
      rw (total, total_size)
          (ap some (
            let size = (read_column_bytes c.type v [] fits).1 in
            omega (arith, length-append (column_bytes c.type v) bs))),
      rw (written, write_columns) refl,
      λ rest.
          rw (append_assoc (column_bytes c.type v) bs rest)
            (rw ((read_column_bytes c.type v (bs ++ rest) fits).0) (ap (◌∷◌ v) (back rest))),
    )

abbrev pub RowOutcome : List ColumnSchema → Row → Type 0
RowOutcome cs row =
    (bs : Bytes) × (serialize cs row ≡ some bs)
    × ((rest : Bytes) → deserialize cs (bs ++ rest) ≡ row)

-- A row whose values are null or of their columns' types, each string shorter than 2^32 bytes, is
-- serialized, and `deserialize` gives it back from the bytes, also when other bytes follow them.
pub deserialize-serialize_row :
    (cs : List ColumnSchema) (row : Row) → IsTyped cs row → RowOutcome cs row
unfolding serialize
deserialize-serialize_row cs row t =
    let (bs, total, written, back) = passes cs row t in
    let none_left : length bs - length bs ≡ 0 = omega arith in
    (bs, rw (total, serialize) (rw written (rw none_left (ap some (append-nil bs)))), back)
