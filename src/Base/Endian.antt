-- ===== src/Base/Endian.antt =====
-- Byte strings as lists of numbers, and the big-endian reads and writes of a `DataView`.
use Prim.Native.Nat.{ℕ, ◌+◌, ◌*◌, ◌/◌, ◌%◌, ◌^◌, ◌<◌}
use mathlib.Core.Path.{◌≡◌}
use mathlib.Core.List.{List, [], ◌∷◌, ◌++◌}
use native.Mathlib.Omega.{arith}
use onlytwo.Base.Lists.{All}

abbrev pub Bytes : Type 0
Bytes = List ℕ

-- `new Uint8Array(…)` holds numbers below 256.
abbrev pub IsBytes : Bytes → Type 0
IsBytes = All (λ b. b < 256)

-- `setUint8`, `setUint32` and `setBigUint64`, which keep the low bits of the value.
abbrev pub be8 : ℕ → Bytes
be8 n = n % 256 ∷ []

abbrev pub be32 : ℕ → Bytes
be32 n = n / 2 ^ 24 % 256 ∷ n / 2 ^ 16 % 256 ∷ n / 2 ^ 8 % 256 ∷ n % 256 ∷ []

abbrev pub be64 : ℕ → Bytes
be64 n =
    n / 2 ^ 56 % 256
    ∷ n / 2 ^ 48 % 256
    ∷ n / 2 ^ 40 % 256
    ∷ n / 2 ^ 32 % 256
    ∷ n / 2 ^ 24 % 256
    ∷ n / 2 ^ 16 % 256
    ∷ n / 2 ^ 8 % 256
    ∷ n % 256
    ∷ []

-- The number that the digits stand for, and the reads `getUint32` and `getBigUint64`.
abbrev pub of_be32 : ℕ → ℕ → ℕ → ℕ → ℕ
of_be32 a b c d = a * 2 ^ 24 + b * 2 ^ 16 + c * 2 ^ 8 + d

abbrev pub of_be64 : ℕ → ℕ → ℕ → ℕ → ℕ → ℕ → ℕ → ℕ → ℕ
of_be64 a b c d e f g h = of_be32 a b c d * 2 ^ 32 + of_be32 e f g h

pub of_be32-be32 :
    (n : ℕ)
    → n < 2 ^ 32
    → of_be32 (n / 2 ^ 24 % 256) (n / 2 ^ 16 % 256) (n / 2 ^ 8 % 256) (n % 256) ≡ n
of_be32-be32 n h = omega arith

-- The bytes written for a number that was read are the bytes read.
pub be32-of_be32 :
    (a b c d : ℕ) (rest : Bytes)
    → a < 256
    → b < 256
    → c < 256
    → d < 256
    → be32 (of_be32 a b c d) ++ rest ≡ a ∷ b ∷ c ∷ d ∷ rest
be32-of_be32 a b c d rest ha hb hc hd = ground arith

pub of_be64-be64 :
    (n : ℕ)
    → n < 2 ^ 64
    → of_be64
        (n / 2 ^ 56 % 256)
        (n / 2 ^ 48 % 256)
        (n / 2 ^ 40 % 256)
        (n / 2 ^ 32 % 256)
        (n / 2 ^ 24 % 256)
        (n / 2 ^ 16 % 256)
        (n / 2 ^ 8 % 256)
        (n % 256)
      ≡ n
of_be64-be64 n h = omega arith

pub be64-of_be64 :
    (a b c d e f g h : ℕ) (rest : Bytes)
    → a < 256
    → b < 256
    → c < 256
    → d < 256
    → e < 256
    → f < 256
    → g < 256
    → h < 256
    → be64 (of_be64 a b c d e f g h) ++ rest ≡ a ∷ b ∷ c ∷ d ∷ e ∷ f ∷ g ∷ h ∷ rest
be64-of_be64 a b c d e f g h rest ha hb hc hd he hf hg hh = ground arith
