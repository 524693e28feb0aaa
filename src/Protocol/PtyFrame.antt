-- ===== src/Protocol/PtyFrame.antt =====
-- protocol/src/pty-frame.ts: the binary codec of terminal output. Bytes are numbers, and a number of
-- JavaScript below 2^53 is a natural number. `opcode` is the number on the wire, since `decode`
-- takes any.
pub mod Codec
use pherry.Base.{
  ℕ, ◌+◌, ◌*◌, ◌/◌, ◌%◌, ◌^◌, List, [], ◌∷◌, ◌++◌, Option, none, some, ltb, ◌==◌, if◌then◌else◌,
  length, drop, not,
}
use pherry.Base.Words.{to_uint32, uint32_le, get_uint32_le}

abbrev pub pty_frame_kind : ℕ
pty_frame_kind = 0x74

abbrev pub pty_frame_version : ℕ
pty_frame_version = 1

abbrev pub header_bytes : ℕ
header_bytes = 16

pub record PtyFrame : Type 0 where
  pub opcode : ℕ
  pub stream_id : ℕ
  pub seq : ℕ
  pub payload : List ℕ

-- `setUint8` keeps the low 8 bits, `setUint32` the low 32.
unfoldable pub encode_pty_frame : PtyFrame → List ℕ
encode_pty_frame f =
    (pty_frame_kind ∷ pty_frame_version ∷ (f.opcode % 256) ∷ 0 ∷ [])
    ++ uint32_le (to_uint32 f.stream_id)
    ++ uint32_le (to_uint32 f.seq)
    ++ uint32_le (f.seq / 2 ^ 32)
    ++ f.payload

-- `view.getUint8(i)`, of a view that is longer than `i`.
abbrev pub get_uint8 : ℕ → List ℕ → ℕ
get_uint8 i bytes = elim (drop i bytes) [ [] ↦ 0 | b ∷ rest ↦ b ]

unfoldable pub decode_pty_frame : List ℕ → Option PtyFrame
decode_pty_frame bytes =
    if ltb (length bytes) header_bytes
    then none
    else if not (get_uint8 0 bytes == pty_frame_kind)
    then none
    else if not (get_uint8 1 bytes == pty_frame_version)
    then none
    else some (record {
      opcode = get_uint8 2 bytes;
      stream_id = get_uint32_le (drop 4 bytes);
      seq = get_uint32_le (drop 12 bytes) * 2 ^ 32 + get_uint32_le (drop 8 bytes);
      payload = drop header_bytes bytes;
    })
