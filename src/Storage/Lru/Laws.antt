-- ===== src/Storage/Lru/Laws.antt =====
-- Lists of distinct frames, and the consistency of the LRU list of src/storage/buffer.
use seeddb.Base.{
  ℕ, List, [], ◌∷◌, ◌++◌, Option, arith, eq-cases, ◌≡◌, Bool, false, if◌then◌else◌, inl, length,
  none, true, ◌||◌, ap, inr, refl, some, suc, ◌==◌, ◌⊎◌, ≢→==_false, sym, ◌∙◌,
}
use seeddb.Storage.Lru.{LruReplacer, contains, remove, split_last}

abbrev pub Distinct : List ℕ → Type 0
Distinct [] = Unit
Distinct (x ∷ xs) = (contains xs x ≡ false) × Distinct xs

-- All frames of the list, the next victim last.
abbrev pub order : LruReplacer → List ℕ
order s = s.young ++ s.old

-- The entry that the node map should have for a frame.
abbrev pub mark : List ℕ → List ℕ → ℕ → Option Bool
mark young old f =
    if contains young f then some false else if contains old f then some true else none

-- The counters count, no frame stands twice, and exactly the frames of the list have a node, each
-- flagged with its part.
pub record IsValid (s : LruReplacer) : Type 0 where
  pub young_count : s.young_size ≡ length s.young
  pub old_count : s.old_size ≡ length s.old
  pub distinct : Distinct (order s)
  pub marked : (f : ℕ) → s.nodes f ≡ mark s.young s.old f

pub contains-append :
    (xs ys : List ℕ) (f : ℕ) → contains (xs ++ ys) f ≡ contains xs f || contains ys f
unfolding contains
contains-append [] ys f = refl
contains-append (x ∷ xs) ys f = ground (arith, contains-append xs ys f)

pub contains-last : (xs : List ℕ) (f : ℕ) → contains (xs ++ f ∷ []) f ≡ true
unfolding contains
contains-last xs f = rw (contains-append xs (f ∷ []) f) (ground arith)

pub Distinct-left : (xs ys : List ℕ) → Distinct (xs ++ ys) → Distinct xs
Distinct-left [] ys d = tt
Distinct-left (x ∷ xs) ys (new, d) =
    (ground (arith, contains-append xs ys x), Distinct-left xs ys d)

pub Distinct-right : (xs ys : List ℕ) → Distinct (xs ++ ys) → Distinct ys
Distinct-right [] ys d = d
Distinct-right (x ∷ xs) ys (new, d) = Distinct-right xs ys d

-- No frame is in both halves.
pub Distinct-apart :
    (xs ys : List ℕ) (f : ℕ) → Distinct (xs ++ ys) → contains xs f ≡ true → contains ys f ≡ false
unfolding contains
Distinct-apart [] ys f d h = cc
Distinct-apart (x ∷ xs) ys f (new, d) h = elim (eq-cases x f) [
  | inl (same, _) ↦ ground (arith, contains-append xs ys x, ap (contains ys) same)
  | inr (other, e) ↦ Distinct-apart xs ys f d (ground arith)
]

pub contains-remove :
    (xs : List ℕ) (f g : ℕ)
    → Distinct xs
    → contains (remove xs f) g ≡ (if f == g then false else contains xs g)
unfolding contains remove
contains-remove [] f g d = ground arith
contains-remove (x ∷ xs) f g (new, d) = elim (eq-cases x f) [
  | inl (same, e) ↦ elim (eq-cases f g) [
    | inl (hit, e') ↦ rw (e, e') (rw (← hit) (rw (← same) new))
    | inr (miss, e') ↦ rw (e, e') (rw (≢→==_false x g (λ z. miss (sym same ∙ z))) refl)
  ]
  | inr (other, e) ↦ rw e (ground (arith, contains-remove xs f g d))
]

pub Distinct-remove : (xs : List ℕ) (f : ℕ) → Distinct xs → Distinct (remove xs f)
unfolding remove
Distinct-remove [] f d = tt
Distinct-remove (x ∷ xs) f (new, d) = elim (eq-cases x f) [
  | inl (same, e) ↦ rw e d
  | inr (other, e) ↦ rw e (ground (arith, contains-remove xs f x d), Distinct-remove xs f d)
]

pub remove-append_left :
    (xs ys : List ℕ) (f : ℕ) → contains xs f ≡ true → remove (xs ++ ys) f ≡ remove xs f ++ ys
unfolding contains remove
remove-append_left [] ys f h = cc
remove-append_left (x ∷ xs) ys f h = ground (arith, remove-append_left xs ys f)

pub remove-append_right :
    (xs ys : List ℕ) (f : ℕ) → contains xs f ≡ false → remove (xs ++ ys) f ≡ xs ++ remove ys f
unfolding contains remove
remove-append_right [] ys f h = refl
remove-append_right (x ∷ xs) ys f h = ground (arith, remove-append_right xs ys f)

pub length-remove :
    (xs : List ℕ) (f : ℕ) → contains xs f ≡ true → suc (length (remove xs f)) ≡ length xs
unfolding contains remove
length-remove [] f h = cc
length-remove (x ∷ xs) f h = ground (arith, length-remove xs f)

-- `split_last` fails on the empty list only, and otherwise takes the last entry off.
pub split_last-cases :
    (xs : List ℕ)
    → ((xs ≡ []) × (split_last xs ≡ none))
      ⊎ ((ys : List ℕ) × (y : ℕ) × (xs ≡ ys ++ y ∷ []) × (split_last xs ≡ some (ys, y)))
unfolding split_last
split_last-cases [] = inl (refl, refl)
split_last-cases (x ∷ xs) = elim (split_last-cases xs) [
  | inl (e, h) ↦ inr ([], x, ap (◌∷◌ x) e, rw (h, split_last) refl)
  | inr (ys, y, e, h) ↦ inr (x ∷ ys, y, ap (◌∷◌ x) e, rw (h, split_last) refl)
]
