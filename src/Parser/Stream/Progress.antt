-- ===== src/Parser/Stream/Progress.antt =====
-- How many tokens the functions of src/parser/parser.cpp take: rules for their parts and for what is
-- composed of them, and that the loop over a list has enough fuel.
use seeddb.Base.{
  Option-cases, ℕ, zero, suc, ◌+◌, ◌≤◌, ◌<◌, Bool, true, false, [], ◌∷◌, Option, some, length, ◌≡◌,
  arith, Bool-cases, inl, inr,
}
use seeddb.Parser.Token.{TokenType}
use seeddb.Parser.Stream.{
  Tokens, Parsed, ok, syntax_error, no_fuel, P, and_then, ◌>>=◌, pure, fail, accept, require,
  require_name, take_op, comma_list, comma_loop, same_type,
}

-- The result of a function that had `n` tokens and took `k` of them at least.
abbrev pub Within : {A : Type 0} → ℕ → ℕ → Parsed A → Type 0
Within k n (ok a rest) = k + length rest ≤ n
Within k n syntax_error = Unit
Within k n no_fuel = ⊥

-- On fewer than `f` tokens the function has a result, and takes `k` of them at least if it succeeds.
pub record Uses {A : Type 0} (k f : ℕ) (p : P A) : Type 0 where
  pub within : (ts : Tokens) → length ts < f → Within k (length ts) (p ts)

pub Within-weaken :
    {A : Type 0} (j k n m : ℕ) (r : Parsed A) → j + n ≤ k + m → Within k n r → Within j m r
Within-weaken j k n m (ok a rest) le h = omega arith
Within-weaken j k n m syntax_error le h = tt
Within-weaken j k n m no_fuel le h = h

pub Within-and_then :
    {A B : Type 0} (i j k n f : ℕ) (r : Parsed A) (g : A → P B)
    → Within i n r
    → n < i + f
    → k ≤ i + j
    → ((a : A) → Uses j f (g a))
    → Within k n (and_then r g)
Within-and_then i j k n f (ok a rest) g h lt le u =
    Within-weaken k j (length rest) n (g a rest) (omega arith) ((u a).within rest (omega arith))
Within-and_then i j k n f syntax_error g h lt le u = tt
Within-and_then i j k n f no_fuel g h lt le u = h

module _ {A B : Type 0} {f : ℕ} {p : P A} {g : A → P B} where
  -- What follows a function that takes a token.
  pub first : Uses 1 (suc f) p → ((a : A) → Uses 0 f (g a)) → Uses 1 (suc f) (p >>= g)
  first u v = record {
    within = λ ts lt.
        Within-and_then 1 0 1 (length ts) f (p ts) g (u.within ts lt) (omega arith) (omega arith) v;
  }

  pub also : Uses 1 f p → ((a : A) → Uses 0 f (g a)) → Uses 1 f (p >>= g)
  also u v = record {
    within = λ ts lt.
        Within-and_then 1 0 1 (length ts) f (p ts) g (u.within ts lt) (omega arith) (omega arith) v;
  }

  -- What follows any other function.
  pub later : {k : ℕ} → Uses 0 f p → ((a : A) → Uses k f (g a)) → Uses k f (p >>= g)
  later {k} u v = record {
    within = λ ts lt.
        Within-and_then 0 k k (length ts) f (p ts) g (u.within ts lt) (omega arith) (omega arith) v;
  }

module _ {A : Type 0} {f : ℕ} {p : P A} where
  pub loosen : Uses 1 f p → Uses 0 f p
  loosen u = record {
    within =
        λ ts lt. Within-weaken 0 1 (length ts) (length ts) (p ts) (omega arith) (u.within ts lt);
  }

  pub fewer : {k n : ℕ} → n ≤ f → Uses k f p → Uses k n p
  fewer le u = record { within = λ ts lt. u.within ts (omega arith) }

pub pure-Uses : {A : Type 0} {f : ℕ} {a : A} → Uses 0 f (pure a)
pure-Uses = record { within = λ ts lt. omega arith }

pub fail-Uses : (A : Type 0) {k f : ℕ} → Uses k f (fail {A = A})
fail-Uses A = record { within = λ ts lt. tt }

accept-Within : (type : TokenType) (ts : Tokens) → Within 0 (length ts) (accept type ts)
unfolding accept
accept-Within type [] = omega arith
accept-Within type (t ∷ ts) = elim (Bool-cases (same_type t.type type)) [
  | inl e ↦ rw e (omega arith)
  | inr e ↦ rw e (omega arith)
]

pub accept-Uses : {f : ℕ} (type : TokenType) → Uses 0 f (accept type)
accept-Uses type = record { within = λ ts lt. accept-Within type ts }

require-Within : (type : TokenType) (ts : Tokens) → Within 1 (length ts) (require type ts)
unfolding require
require-Within type [] = tt
require-Within type (t ∷ ts) = elim (Bool-cases (same_type t.type type)) [
  | inl e ↦ rw e (omega arith)
  | inr e ↦ rw e tt
]

pub require-Uses : {f : ℕ} (type : TokenType) → Uses 1 f (require type)
require-Uses type = record { within = λ ts lt. require-Within type ts }

require_name-Within : (ts : Tokens) → Within 1 (length ts) (require_name ts)
unfolding require_name
require_name-Within [] = tt
require_name-Within (t ∷ ts) = elim (Bool-cases (same_type t.type TokenType.identifier)) [
  | inl e ↦ rw e (omega arith)
  | inr e ↦ rw e tt
]

pub require_name-Uses : {f : ℕ} → Uses 1 f require_name
require_name-Uses = record { within = λ ts lt. require_name-Within ts }

-- What is left behind a token that `take_op` takes.
pub take_op-length :
    {A : Type 0} (ops : TokenType → Option A) (ts : Tokens) (op : A) (rest : Tokens)
    → take_op ops ts ≡ some (op, rest)
    → suc (length rest) ≡ length ts
unfolding take_op
take_op-length ops [] op rest h = cc
take_op-length ops (t ∷ ts) op rest h = elim (Option-cases (ops t.type)) [
  | inl e ↦ ground (arith, e)
  | inr (o, e) ↦ ground (arith, e)
]

pub by_bool :
    {A : Type 0} {k f : ℕ} (b : Bool) {p q : P A}
    → Uses k f p
    → Uses k f q
    → Uses k f (elim b [ true ↦ p | false ↦ q ])
by_bool true u v = u
by_bool false u v = v

pub comma_loop-Uses :
    {A : Type 0} (f n : ℕ) (p : P A) → n ≤ f → Uses 1 f p → Uses 1 n (comma_loop p n)
unfolding comma_loop
comma_loop-Uses f zero p le u = record { within = λ ts lt. absurd (omega arith) }
comma_loop-Uses f (suc n) p le u = first (fewer le u) λ x.
    later (accept-Uses TokenType.comma) λ more.
      by_bool more (loosen (also (comma_loop-Uses f n p (omega arith) u) λ xs. pure-Uses)) pure-Uses

pub comma_list-Uses : {A : Type 0} {f : ℕ} {p : P A} → Uses 1 f p → Uses 1 f (comma_list p)
unfolding comma_list
comma_list-Uses {f} {p} u = record {
  within = λ ts lt. (comma_loop-Uses f (suc (length ts)) p (omega arith) u).within ts (omega arith);
}
