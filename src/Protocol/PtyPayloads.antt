-- ===== src/Protocol/PtyPayloads.antt =====
-- protocol/src/pty-payloads.ts: the payloads that an opcode gives a fixed shape, and the opcodes of
-- protocol/src/pty-frame.ts.
use pherry.Base.{
  ltb, ◌-◌, if◌then◌else◌, ℕ, ◌+◌, ◌*◌, ◌^◌, ◌<◌, ◌≡◌, List, [], ◌∷◌, ◌++◌, Option, none, some,
  arith,
}
use pherry.Base.Words.{to_uint32, uint16_le, uint32_le, get_uint32_le}

-- `PtyOpcode`
pub data PtyOpcode : Type 0 where
  output snapshot_start snapshot_chunk snapshot_end resized ended gap : PtyOpcode

-- The values of `PtyOpcode`.
abbrev pub code : PtyOpcode → ℕ
code output = 1
code snapshot_start = 2
code snapshot_chunk = 3
code snapshot_end = 4
code resized = 5
code ended = 6
code gap = 7

-- `Size`
pub record Size : Type 0 where
  pub cols : ℕ
  pub rows : ℕ

-- `encodeSizePayload`
unfoldable pub encode_size_payload : Size → List ℕ
encode_size_payload size = uint16_le size.cols ++ uint16_le size.rows

-- `decodeSizePayload`: `none` where the view is too short, and it throws.
unfoldable pub decode_size_payload : List ℕ → Option Size
decode_size_payload (a ∷ b ∷ c ∷ d ∷ rest) =
    some (record { cols = a + 0x100 * b; rows = c + 0x100 * d })
decode_size_payload _ = none

-- A number with a sign: `pos n` is n, and `negsuc n` is -(n + 1).
pub data ℤ : Type 0 where
  pos : ℕ → ℤ
  negsuc : ℕ → ℤ

-- The 32 bits of a number in two's complement, and the number that 32 bits stand for.
abbrev pub int32_bits : ℤ → ℕ
int32_bits (pos n) = to_uint32 n
int32_bits (negsuc n) = 2 ^ 32 - 1 - to_uint32 n

abbrev pub int32_of : ℕ → ℤ
int32_of bits = if ltb bits (2 ^ 31) then pos bits else negsuc (2 ^ 32 - 1 - bits)

-- `encodeExitPayload`
unfoldable pub encode_exit_payload : Option ℤ → List ℕ
encode_exit_payload none = []
encode_exit_payload (some exit) = uint32_le (int32_bits exit)

-- `decodeExitPayload`: `none` where it throws.
unfoldable pub decode_exit_payload : List ℕ → Option (Option ℤ)
decode_exit_payload [] = some none
decode_exit_payload (a ∷ b ∷ c ∷ d ∷ rest) =
    some (some (int32_of (get_uint32_le (a ∷ b ∷ c ∷ d ∷ []))))
decode_exit_payload _ = none

-- A size that the two words of the payload hold.
abbrev pub Fits : Size → Type 0
Fits size = (size.cols < 2 ^ 16) × (size.rows < 2 ^ 16)

-- A size whose sides are below 2 ^ 16 is decoded as it was encoded.
pub decode-encode_size :
    (size : Size) → Fits size → decode_size_payload (encode_size_payload size) ≡ some size
unfolding decode_size_payload encode_size_payload
decode-encode_size size h = ground arith

-- A number that 32 bits hold with its sign.
abbrev pub IsI32 : ℤ → Type 0
IsI32 (pos n) = n < 2 ^ 31
IsI32 (negsuc n) = n < 2 ^ 31

-- An exit code of 32 bits is decoded as it was encoded.
pub decode-encode_exit :
    (exit : ℤ)
    → IsI32 exit
    → decode_exit_payload (encode_exit_payload (some exit)) ≡ some (some exit)
unfolding decode_exit_payload encode_exit_payload
decode-encode_exit (pos n) small = ground arith
decode-encode_exit (negsuc n) small = ground arith
