-- ===== src/Base/Words.antt =====
-- Bytes and the 32-bit words that a JavaScript `DataView` writes and reads.
use pherry.Base.{ℕ, ◌+◌, ◌*◌, ◌/◌, ◌%◌, ◌^◌, ◌<◌, ◌≡◌, List, [], ◌∷◌, arith, All}

abbrev pub IsByte : ℕ → Type 0
IsByte b = b < 256

abbrev pub IsU32 : ℕ → Type 0
IsU32 n = n < 2 ^ 32

-- `x >>> 0` of a non-negative integer: its low 32 bits.
abbrev pub to_uint32 : ℕ → ℕ
to_uint32 x = x % 2 ^ 32

-- `view.setUint32(_, x, false)`: big-endian, of the low 32 bits.
abbrev pub uint32_be : ℕ → List ℕ
uint32_be x = (x / 0x1000000 % 256) ∷ (x / 0x10000 % 256) ∷ (x / 0x100 % 256) ∷ (x % 256) ∷ []

-- `view.setUint32(_, x, true)`: little-endian.
abbrev pub uint32_le : ℕ → List ℕ
uint32_le x = (x % 256) ∷ (x / 0x100 % 256) ∷ (x / 0x10000 % 256) ∷ (x / 0x1000000 % 256) ∷ []

-- `view.setUint16(_, x, true)`, of the low 16 bits.
abbrev pub uint16_le : ℕ → List ℕ
uint16_le x = (x % 256) ∷ (x / 0x100 % 256) ∷ []

-- `view.getUint32(0, true)` at the front of a view.
abbrev pub get_uint32_le : List ℕ → ℕ
get_uint32_le (a ∷ b ∷ c ∷ d ∷ rest) = a + 0x100 * b + 0x10000 * c + 0x1000000 * d
get_uint32_le _ = 0

-- The number that the first four bytes stand for, the highest first.
abbrev pub get_uint32_be : List ℕ → ℕ
get_uint32_be (a ∷ b ∷ c ∷ d ∷ rest) = 0x1000000 * a + 0x10000 * b + 0x100 * c + d
get_uint32_be _ = 0

pub get_uint32_be-uint32_be : (x : ℕ) → IsU32 x → get_uint32_be (uint32_be x) ≡ x
get_uint32_be-uint32_be x h = omega arith

pub get_uint32_le-uint32_le : (x : ℕ) → get_uint32_le (uint32_le x) ≡ to_uint32 x
get_uint32_le-uint32_le x = omega arith

pub uint32_be-IsByte : (x : ℕ) → All IsByte (uint32_be x)
uint32_be-IsByte x = omega arith

pub uint32_le-IsByte : (x : ℕ) → All IsByte (uint32_le x)
uint32_le-IsByte x = omega arith
