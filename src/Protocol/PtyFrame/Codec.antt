-- ===== src/Protocol/PtyFrame/Codec.antt =====
-- protocol/src/pty-frame.ts: the two halves of the codec against one another.
use pherry.Base.{
  ℕ, ◌+◌, ◌*◌, ◌/◌, ◌%◌, ◌^◌, ◌≤◌, ◌<◌, ◌≡◌, List, [], ◌∷◌, ◌++◌, some, arith, length, drop, All,
  All-append, ◌↔◌,
}
use pherry.Base.Words.{IsByte, IsU32, to_uint32, uint32_le, get_uint32_le}
use pherry.Protocol.PtyFrame.{
  PtyFrame, encode_pty_frame, decode_pty_frame, get_uint8, header_bytes, pty_frame_kind,
  pty_frame_version,
}

-- A frame that the header holds whole: a byte, a word, and a sequence number of 64 bits. (Sequence
-- numbers of the program stay below 2 ^ 53.)
pub record Encodable (f : PtyFrame) : Type 0 where
  pub opcode : IsByte f.opcode
  pub stream_id : IsU32 f.stream_id
  pub seq : f.seq < 2 ^ 64

-- Decoding gives back every frame whose fields fit the header.
pub decode-encode : (f : PtyFrame) → Encodable f → decode_pty_frame (encode_pty_frame f) ≡ some f
unfolding decode_pty_frame encode_pty_frame
decode-encode f e = ground arith

abbrev header : PtyFrame → List ℕ
header f =
    (pty_frame_kind ∷ pty_frame_version ∷ (f.opcode % 256) ∷ 0 ∷ [])
    ++ uint32_le (to_uint32 f.stream_id)
    ++ uint32_le (to_uint32 f.seq)
    ++ uint32_le (f.seq / 2 ^ 32)

-- The encoder writes 16 bytes and the payload, all of them bytes.
pub encode_shape :
    (f : PtyFrame)
    → All IsByte f.payload
    → All IsByte (encode_pty_frame f)
      × (length (encode_pty_frame f) ≡ header_bytes + length f.payload)
unfolding encode_pty_frame
encode_shape f h = (All-append IsByte (header f) f.payload (omega arith) h, omega arith)

-- A buffer is decoded exactly if it holds a header with the magic byte and the version.
pub decode_iff :
    (bytes : List ℕ)
    → ((f : PtyFrame) × (decode_pty_frame bytes ≡ some f)) ↔ (
        (header_bytes ≤ length bytes)
        × (get_uint8 0 bytes ≡ pty_frame_kind)
        × (get_uint8 1 bytes ≡ pty_frame_version))
unfolding decode_pty_frame
decode_iff bytes = (
  λ d. ground (arith, d.1),
  λ h. (
    record {
      opcode = get_uint8 2 bytes;
      stream_id = get_uint32_le (drop 4 bytes);
      seq = get_uint32_le (drop 12 bytes) * 2 ^ 32 + get_uint32_le (drop 8 bytes);
      payload = drop header_bytes bytes;
    },
    ground arith,
  ),
)

-- Encoding gives back every decoded buffer whose reserved byte is 0.
pub encode-decode :
    (bytes : List ℕ) (f : PtyFrame)
    → All IsByte bytes
    → get_uint8 3 bytes ≡ 0
    → decode_pty_frame bytes ≡ some f
    → encode_pty_frame f ≡ bytes
unfolding decode_pty_frame encode_pty_frame
encode-decode (a ∷ b ∷ c ∷ d ∷ e ∷ f ∷ g ∷ h ∷ i ∷ j ∷ k ∷ l ∷ m ∷ n ∷ o ∷ p ∷ rest) r v z q =
    ground arith
encode-decode xs r v z q = cc
