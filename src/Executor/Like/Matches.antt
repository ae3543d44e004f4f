-- ===== src/Executor/Like/Matches.antt =====
-- `Executor::matchLikePattern` of src/executor/executor.cpp against a relation between strings and
-- patterns.
use seeddb.Base.{
  ℕ, Bool, true, false, List, [], ◌∷◌, ◌++◌, Bytes, ◌==◌, ◌&&◌, ◌||◌, if◌then◌else◌, ◌≡◌, ap, refl,
  Bool-cases, ◌∙◌, inl, inr, arith, sym, ◌↔◌, append-nil, append_assoc,
}
use mathlib.Core.List.{reverse, reverse_aux, reverse-append, reverse-reverse, reverse-cons}
use seeddb.Executor.Like.{first_cells, next_cells, fill, last_cell, match_like_pattern}

-- What a character of a pattern stands for: any characters, one character, or itself.
abbrev pub Stands : ℕ → Bytes → Type 0
Stands p u = elim (p == b'%') [
  | true ↦ Unit
  | false ↦ elim (p == b'_') [ true ↦ (c : ℕ) × (u ≡ c ∷ []) | false ↦ u ≡ p ∷ [] ]
]

-- The string is a chain of pieces, one for each character of the pattern.
pub Matches : Bytes → Bytes → Type 0
Matches s [] = s ≡ []
Matches s (p ∷ ps) = (u : Bytes) × (v : Bytes) × (s ≡ u ++ v) × Stands p u × Matches v ps

-- The recurrence of the table, on the prefixes read backwards.
back : Bytes → Bytes → Bool
back [] [] = true
back (c ∷ s) [] = false
back [] (p ∷ ps) = let rest = back [] ps in if p == b'%' then rest else false
back (c ∷ s) (p ∷ ps) =
    let skip = back (c ∷ s) ps in
    let stay = back s (p ∷ ps) in
    let step = back s ps in
    if p == b'%' then skip || stay else if p == b'_' then step else step && c == p

-- The cells of a row: for the string read so far and each prefix of the pattern behind `seen`.
cells : Bytes → Bytes → Bytes → List Bool
cells s seen [] = []
cells s seen (p ∷ ps) = back s (p ∷ seen) ∷ cells s (p ∷ seen) ps

first_cells-cells : (seen ps : Bytes) → first_cells (back [] seen) ps ≡ cells [] seen ps
unfolding first_cells cells back
first_cells-cells seen [] = refl
first_cells-cells seen (p ∷ ps) = ap (◌∷◌ (back [] (p ∷ seen))) (first_cells-cells (p ∷ seen) ps)

next_cells-cells :
    (c : ℕ) (s seen ps : Bytes)
    → next_cells c (back (c ∷ s) seen) (back s seen) (cells s seen ps) ps ≡ cells (c ∷ s) seen ps
unfolding next_cells cells back
next_cells-cells c s seen [] = refl
next_cells-cells c s seen (p ∷ ps) =
    ap (◌∷◌ (back (c ∷ s) (p ∷ seen))) (next_cells-cells c s (p ∷ seen) ps)

fill-cells :
    (s str pattern : Bytes)
    → fill (back s []) (cells s [] pattern) str pattern
      ≡ back (reverse_aux str s) [] ∷ cells (reverse_aux str s) [] pattern
unfolding fill back
fill-cells s [] pattern = refl
fill-cells s (c ∷ str) pattern =
    ap (λ cs. fill false cs str pattern) (next_cells-cells c s [] pattern)
    ∙ fill-cells (c ∷ s) str pattern

last_cell-cells :
    (s seen ps : Bytes) → last_cell (back s seen ∷ cells s seen ps) ≡ back s (reverse_aux ps seen)
unfolding last_cell cells
last_cell-cells s seen [] = refl
last_cell-cells s seen (p ∷ ps) = last_cell-cells s (p ∷ seen) ps

match_like_pattern-back :
    (str pattern : Bytes) → match_like_pattern str pattern ≡ back (reverse str) (reverse pattern)
unfolding match_like_pattern back
match_like_pattern-back str pattern =
    ap (λ cs. last_cell (fill true cs str pattern)) (first_cells-cells [] pattern)
    ∙ ap last_cell (fill-cells [] str pattern)
    ∙ last_cell-cells (reverse str) [] pattern

percent-Stands : (p : ℕ) (u : Bytes) → (p == b'%') ≡ true → Stands p u
percent-Stands p u e = rw (e, Stands) tt

back-Matches : (s ps : Bytes) → back s ps ≡ true → Matches s ps
unfolding back Matches
back-Matches [] [] h = refl
back-Matches (c ∷ s) [] h = cc
back-Matches [] (p ∷ ps) h = elim (Bool-cases (p == b'%')) [
  | inl e ↦ ([], [], refl, percent-Stands p [] e, back-Matches [] ps (rw e at h))
  | inr e ↦ cc (rw e at h)
]
back-Matches (c ∷ s) (p ∷ ps) h = elim (Bool-cases (p == b'%')) [
  | inl e ↦ elim (Bool-cases (back (c ∷ s) ps)) [
    | inl skip ↦ ([], c ∷ s, refl, percent-Stands p [] e, back-Matches (c ∷ s) ps skip)
    | inr none_here ↦
        let (u, v, split, _, rest) = back-Matches s (p ∷ ps) (ground arith) in
        (c ∷ u, v, ap (◌∷◌ c) split, percent-Stands p (c ∷ u) e, rest)
  ]
  | inr e ↦ elim (Bool-cases (p == b'_')) [
    | inl e' ↦ (c ∷ [], s, refl, rw (e, e', Stands) (c, refl), back-Matches s ps (ground arith))
    | inr e' ↦
        let here : c ≡ p = ground arith in
        (
          c ∷ [],
          s,
          refl,
          rw (e, e', Stands) (ap (λ x. x ∷ []) here),
          back-Matches s ps (ground arith),
        )
  ]
]

back-skip : (s ps : Bytes) (p : ℕ) → (p == b'%') ≡ true → back s ps ≡ true → back s (p ∷ ps) ≡ true
unfolding back
back-skip [] ps p e h = ground arith
back-skip (c ∷ s) ps p e h = ground arith

-- A piece for `%` may be taken from the front of the string.
back-percent :
    (u v ps : Bytes) (p : ℕ) → (p == b'%') ≡ true → back v ps ≡ true → back (u ++ v) (p ∷ ps) ≡ true
unfolding back
back-percent [] v ps p e h = back-skip v ps p e h
back-percent (c ∷ u) v ps p e h =
    let stay = back-percent u v ps p e h in rw e (rw stay (or_true (back (c ∷ (u ++ v)) ps)))
  where
    or_true : (x : Bool) → (x || true) ≡ true
    or_true true = refl
    or_true false = refl

Matches-back : (s ps : Bytes) → Matches s ps → back s ps ≡ true
unfolding back Matches
Matches-back s [] h = rw h
Matches-back s (p ∷ ps) (u, v, split, piece, rest) = rw split (elim (Bool-cases (p == b'%')) [
  | inl e ↦ back-percent u v ps p e (Matches-back v ps rest)
  | inr e ↦ elim (Bool-cases (p == b'_')) [
    | inl e' ↦
        let piece' : (c : ℕ) × (u ≡ c ∷ []) = rw (e, e', Stands) at piece in
        rw piece'.1 (rw (e, e') (Matches-back v ps rest))
    | inr e' ↦
        let piece' : u ≡ p ∷ [] = rw (e, e', Stands) at piece in
        rw piece' (ground (arith, Matches-back v ps rest))
  ]
])

Matches-append : (s t ps qs : Bytes) → Matches s ps → Matches t qs → Matches (s ++ t) (ps ++ qs)
unfolding Matches
Matches-append s t [] qs h k = rw h k
Matches-append s t (p ∷ ps) qs (u, v, split, piece, rest) k =
    (u, v ++ t, rw split (append_assoc u v t), piece, Matches-append v t ps qs rest k)

Stands-reverse : (p : ℕ) (u : Bytes) → Stands p u → Stands p (reverse u)
Stands-reverse p u h = elim (Bool-cases (p == b'%')) [
  | inl e ↦ percent-Stands p (reverse u) e
  | inr e ↦ elim (Bool-cases (p == b'_')) [
    | inl e' ↦
        let h' : (c : ℕ) × (u ≡ c ∷ []) = rw (e, e', Stands) at h in
        rw (e, e', Stands) (h'.0, ap reverse h'.1)
    | inr e' ↦ let h' : u ≡ p ∷ [] = rw (e, e', Stands) at h in rw (e, e', Stands) (ap reverse h')
  ]
]

Matches-reverse : (s ps : Bytes) → Matches s ps → Matches (reverse s) (reverse ps)
unfolding Matches
Matches-reverse s [] h = rw h refl
Matches-reverse s (p ∷ ps) (u, v, split, piece, rest) =
    rw (split, reverse-append u v, reverse-cons p ps)
      (Matches-append (reverse v) (reverse u) (reverse ps) (p ∷ []) (Matches-reverse v ps rest)
        (reverse u, [], sym (append-nil (reverse u)), Stands-reverse p u piece, refl))

-- The table answers true exactly if the string is a chain of pieces for the pattern's characters:
-- any characters for `%`, one for `_`, and the character itself for any other.
pub match_like_pattern-Matches :
    (str pattern : Bytes) → (match_like_pattern str pattern ≡ true) ↔ Matches str pattern
match_like_pattern-Matches str pattern = (sound, complete)
  where
    sound : match_like_pattern str pattern ≡ true → Matches str pattern
    sound h =
        rw (reverse-reverse str, reverse-reverse pattern) at
          (Matches-reverse (reverse str) (reverse pattern)
            (back-Matches _ _ (sym (match_like_pattern-back str pattern) ∙ h)))

    complete : Matches str pattern → match_like_pattern str pattern ≡ true
    complete h =
        match_like_pattern-back str pattern ∙ Matches-back _ _ (Matches-reverse str pattern h)
