-- ===== src/Prelude/Words.antt =====
-- Bytes, machine words in little-endian order, and text as the bytes of its UTF-8 encoding.
use Prim.Native.Nat.{ℕ, ◌+◌, ◌*◌, ◌/◌, ◌%◌, ◌^◌, ◌<◌}
use Prim.Native.Char.{code}
use Prim.Native.String.{String}
use mathlib.Core.Path.{◌≡◌}
use mathlib.Core.List.{List, [], ◌∷◌}
use native.Mathlib.Omega.{arith}

-- `&[u8]`, `Vec<u8>`, and `String` by its bytes.
abbrev pub Bytes : Type 0
Bytes = List ℕ

-- The code points of a text: its bytes, if it is ASCII.
abbrev pub text : String → Bytes
text String.[] = []
text (String.◌∷◌ c s) = code c ∷ text s

-- `to_le_bytes` and `from_le_bytes`.
abbrev pub u16_le : ℕ → Bytes
u16_le n = n % 256 ∷ n / 256 % 256 ∷ []

abbrev pub u16_of : ℕ → ℕ → ℕ
u16_of a b = a + 256 * b

abbrev pub u32_le : ℕ → Bytes
u32_le n = n % 256 ∷ n / 256 % 256 ∷ n / 65536 % 256 ∷ n / 16777216 % 256 ∷ []

abbrev pub u32_of : ℕ → ℕ → ℕ → ℕ → ℕ
u32_of a b c d = a + 256 * b + 65536 * c + 16777216 * d

pub u16_of-le : (n : ℕ) → n < 65536 → u16_of (n % 256) (n / 256 % 256) ≡ n
u16_of-le n h = omega arith

pub u32_of-le :
    (n : ℕ)
    → n < 2 ^ 32
    → u32_of (n % 256) (n / 256 % 256) (n / 65536 % 256) (n / 16777216 % 256) ≡ n
u32_of-le n h = omega arith
