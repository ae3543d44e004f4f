-- ===== src/Base/RawMemory.antt =====
-- Raw byte arrays. A `char` array is the function from an index to the byte there; `memcpy` and
-- `memset` into it are `write`, and a pointer with a length is the list that `read` gives.
use Prim.Native.Nat.{ℕ, zero, suc, ◌+◌, ◌-◌, ◌≤◌, ◌<◌}
use mathlib.Core.Bool.{◌&&◌}
use mathlib.Core.Path.{◌≡◌, refl, ap, ap₂, ◌∙◌}
use mathlib.Core.Logic.{◌⊎◌, inl, inr}
use mathlib.Core.List.{List, [], ◌∷◌}
use native.Mathlib.Omega.{arith}
use seeddb.Base.Tests.{ltb, leb, if◌then◌else◌}
use seeddb.Base.Lists.{length, get_or}

abbrev pub Bytes : Type 0
Bytes = List ℕ

abbrev pub Memory : Type 0
Memory = ℕ → ℕ

abbrev pub write : Memory → ℕ → Bytes → Memory
write m off bs i = if leb off i && ltb i (off + length bs) then get_or bs (i - off) 0 else m i

unfoldable pub read : Memory → ℕ → ℕ → Bytes
read m off zero = []
read m off (suc n) = m off ∷ read m (off + 1) n

-- `memset(buf, 0, n)`.
abbrev pub zeros : ℕ → Bytes
zeros zero = []
zeros (suc n) = 0 ∷ zeros n

pub length-zeros : (n : ℕ) → length (zeros n) ≡ n
length-zeros zero = refl
length-zeros (suc n) = omega (arith, length-zeros n)

pub length-read : (m : Memory) (off n : ℕ) → length (read m off n) ≡ n
unfolding read
length-read m off zero = refl
length-read m off (suc n) = omega (arith, length-read m (off + 1) n)

pub read-ext :
    (m m' : Memory) (off n : ℕ)
    → ((i : ℕ) → off ≤ i → i < off + n → m i ≡ m' i)
    → read m off n ≡ read m' off n
unfolding read
read-ext m m' off zero h = refl
read-ext m m' off (suc n) h =
    ap₂ ◌∷◌ (h off (omega arith) (omega arith))
      (read-ext m m' (off + 1) n (λ i lo hi. h i (omega arith) (omega arith)))

pub write_outside :
    (m : Memory) (off : ℕ) (bs : Bytes) (i : ℕ)
    → (i < off) ⊎ (off + length bs ≤ i)
    → write m off bs i ≡ m i
write_outside m off bs i h = ground arith

pub write_inside :
    (m : Memory) (off : ℕ) (bs : Bytes) (i : ℕ)
    → off ≤ i
    → i < off + length bs
    → write m off bs i ≡ get_or bs (i - off) 0
write_inside m off bs i lo hi = ground arith

-- A read that does not meet the written range sees the old bytes.
pub read-write_apart :
    (m : Memory) (off : ℕ) (bs : Bytes) (at n : ℕ)
    → (at + n ≤ off) ⊎ (off + length bs ≤ at)
    → read (write m off bs) at n ≡ read m at n
read-write_apart m off bs at n (inl h) =
    read-ext _ m at n (λ i lo hi. write_outside m off bs i (inl (omega arith)))
read-write_apart m off bs at n (inr h) =
    read-ext _ m at n (λ i lo hi. write_outside m off bs i (inr (omega arith)))

-- What a read of exactly `bs` at `off` finds, when the memory holds `bs` there.
pub read_holds :
    (m : Memory) (off : ℕ) (bs : Bytes)
    → ((i : ℕ) → off ≤ i → i < off + length bs → m i ≡ get_or bs (i - off) 0)
    → read m off (length bs) ≡ bs
unfolding read
read_holds m off [] h = refl
read_holds m off (b ∷ bs) h = ap₂ ◌∷◌ first (read_holds m (off + 1) bs rest)
  where
    first : m off ≡ b
    first = ground (arith, h off (omega arith) (omega arith))

    rest : (i : ℕ) → off + 1 ≤ i → i < off + 1 + length bs → m i ≡ get_or bs (i - (off + 1)) 0
    rest i lo hi =
        let e : i - off ≡ suc (i - (off + 1)) = omega arith in
        h i (omega arith) (omega arith) ∙ ap (λ k. get_or (b ∷ bs) k 0) e

pub read-write_self :
    (m : Memory) (off : ℕ) (bs : Bytes) → read (write m off bs) off (length bs) ≡ bs
read-write_self m off bs = read_holds (write m off bs) off bs (write_inside m off bs)

pub get_or-read : (m : Memory) (off n i : ℕ) → i < n → get_or (read m off n) i 0 ≡ m (off + i)
unfolding read
get_or-read m off zero i h = elim h [ ]
get_or-read m off (suc n) zero h = ap m (omega arith)
get_or-read m off (suc n) (suc i) h = get_or-read m (off + 1) n i (omega arith) ∙ ap m (omega arith)
