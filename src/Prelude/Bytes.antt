-- ===== src/Prelude/Bytes.antt =====
-- Big-endian words in byte lists, as encoding/binary reads and writes them; signed 64-bit values.
use Prim.Native.Nat.{ℕ, ◌+◌, ◌*◌, ◌/◌, ◌%◌, ◌^◌, ◌<◌}
use mathlib.Core.Path.{◌≡◌}
use mathlib.Core.List.{List, [], ◌∷◌}
use native.Mathlib.Omega.{arith}
use vidya_god_ipfs.Prelude.Lists.{get_or}

-- `negsuc n` is -(n + 1).
pub data ℤ : Type 0 where
  pos : ℕ → ℤ
  negsuc : ℕ → ℤ

-- b[i], where the code has checked that there is one
abbrev pub byte_at : List ℕ → ℕ → ℕ
byte_at b i = get_or b i 0

abbrev pub put_uint16 : ℕ → List ℕ
put_uint16 n = (n / 256 % 256) ∷ (n % 256) ∷ []

abbrev pub uint16 : ℕ → ℕ → ℕ
uint16 a b = a * 256 + b

abbrev pub put_uint64 : ℕ → List ℕ
put_uint64 n =
    (n / 2 ^ 56 % 256)
    ∷ (n / 2 ^ 48 % 256)
    ∷ (n / 2 ^ 40 % 256)
    ∷ (n / 2 ^ 32 % 256)
    ∷ (n / 2 ^ 24 % 256)
    ∷ (n / 2 ^ 16 % 256)
    ∷ (n / 2 ^ 8 % 256)
    ∷ (n % 256)
    ∷ []

-- the word at offset `o`
abbrev pub uint64 : List ℕ → ℕ → ℕ
uint64 b o =
    byte_at b o * 2 ^ 56
    + byte_at b (o + 1) * 2 ^ 48
    + byte_at b (o + 2) * 2 ^ 40
    + byte_at b (o + 3) * 2 ^ 32
    + byte_at b (o + 4) * 2 ^ 24
    + byte_at b (o + 5) * 2 ^ 16
    + byte_at b (o + 6) * 2 ^ 8
    + byte_at b (o + 7)

pub uint64-put :
    (n : ℕ)
    → n < 2 ^ 64
    → n / 2 ^ 56 % 256 * 2 ^ 56
        + n / 2 ^ 48 % 256 * 2 ^ 48
        + n / 2 ^ 40 % 256 * 2 ^ 40
        + n / 2 ^ 32 % 256 * 2 ^ 32
        + n / 2 ^ 24 % 256 * 2 ^ 24
        + n / 2 ^ 16 % 256 * 2 ^ 16
        + n / 2 ^ 8 % 256 * 2 ^ 8
        + n % 256
      ≡ n
uint64-put n h = omega arith
