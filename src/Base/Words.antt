-- ===== src/Base/Words.antt =====
-- Unsigned machine words as native numbers, and their little-endian bytes, which is what `memcpy`
-- of a word gives on the hosts that the program is built for.
use Prim.Native.Nat.{ℕ, zero, suc, ◌+◌, ◌-◌, ◌*◌, ◌/◌, ◌%◌, ◌^◌, ◌<◌, ◌≤◌}
use mathlib.Core.Path.{◌≡◌, refl, ap, subst, ◌∙◌}
use mathlib.Core.List.{[], ◌∷◌}
use mathlib.Core.Logic.{◌⊎◌}
use native.Mathlib.Omega.{arith}
use native.Mathlib.Nat.{pow-suc}
use seeddb.Base.Lists.{length}
use seeddb.Base.RawMemory.{Bytes, Memory, read, write, read-write_self, read-write_apart}

abbrev pub u8 : ℕ → ℕ
u8 n = n % 2 ^ 8

abbrev pub u16 : ℕ → ℕ
u16 n = n % 2 ^ 16

abbrev pub u32 : ℕ → ℕ
u32 n = n % 2 ^ 32

-- The difference of two `uint32_t`.
abbrev pub sub32 : ℕ → ℕ → ℕ
sub32 a b = (a + 2 ^ 32 - b) % 2 ^ 32

unfoldable pub encode : ℕ → ℕ → Bytes
encode zero v = []
encode (suc w) v = (v % 256) ∷ encode w (v / 256)

unfoldable pub decode : Bytes → ℕ
decode [] = 0
decode (b ∷ bs) = b + 256 * decode bs

pub length-encode : (w v : ℕ) → length (encode w v) ≡ w
unfolding encode
length-encode zero v = refl
length-encode (suc w) v = ap suc (length-encode w (v / 256))

pub decode-encode : (w v : ℕ) → v < 256 ^ w → decode (encode w v) ≡ v
unfolding encode decode
decode-encode zero v h = omega arith
decode-encode (suc w) v h = omega (arith, decode-encode w (v / 256) (omega (arith, pow-suc 256 w)))

-- A word that was stored with `memcpy` is read back.
pub decode-read-write_self :
    (m : Memory) (off w v : ℕ) → v < 256 ^ w → decode (read (write m off (encode w v)) off w) ≡ v
decode-read-write_self m off w v h =
    let same : read (write m off (encode w v)) off w ≡ encode w v =
      subst (λ n. read (write m off (encode w v)) off n ≡ encode w v) (length-encode w v)
        (read-write_self m off (encode w v)) in
    ap decode same ∙ decode-encode w v h

-- A store of a word leaves other ranges alone.
pub read-write-encode_apart :
    (m : Memory) (off w v at n : ℕ)
    → (at + n ≤ off) ⊎ (off + w ≤ at)
    → read (write m off (encode w v)) at n ≡ read m at n
read-write-encode_apart m off w v at n h =
    read-write_apart m off (encode w v) at n (rw length-encode h)
