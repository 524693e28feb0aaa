-- ===== src/Protocol/Examples.antt =====
-- Runs of protocol/ at fixed inputs, and its theorems there.
use pherry.Protocol.Version.{CompatResult, evaluate_compat, evaluate_compat_mutual}
use pherry.Protocol.Capabilities.{negotiate, member-negotiate}
use pherry.Base.Maps.{member}
use pherry.Base.{◌&&◌}
use pherry.Base.{ℕ, ◌≤◌, ◌≡◌, refl, ◌↔◌, List, [], ◌∷◌, some, arith, length}
use pherry.Protocol.PtyFrame.{
  PtyFrame, encode_pty_frame, decode_pty_frame, get_uint8, header_bytes, pty_frame_kind,
  pty_frame_version,
}
use pherry.Protocol.PtyFrame.Codec.{decode-encode, decode_iff}

-- A frame whose sequence number needs both words.
abbrev output_frame : PtyFrame
output_frame = record { opcode = 1; stream_id = 7; seq = 0x1_0000_0002; payload = 65 ∷ 66 ∷ [] }

abbrev output_bytes : List ℕ
output_bytes = 0x74 ∷ 1 ∷ 1 ∷ 0 ∷ 7 ∷ 0 ∷ 0 ∷ 0 ∷ 2 ∷ 0 ∷ 0 ∷ 0 ∷ 1 ∷ 0 ∷ 0 ∷ 0 ∷ 65 ∷ 66 ∷ []

encode_output : encode_pty_frame output_frame ≡ output_bytes
unfolding encode_pty_frame
encode_output = refl

decode_output : decode_pty_frame output_bytes ≡ some output_frame
unfolding decode_pty_frame
decode_output = refl

decode-encode_example : decode_pty_frame (encode_pty_frame output_frame) ≡ some output_frame
decode-encode_example = decode-encode output_frame (omega arith)

decode_iff_example : ((f : PtyFrame) × (decode_pty_frame output_bytes ≡ some f)) ↔ (
    (header_bytes ≤ length output_bytes)
    × (get_uint8 0 output_bytes ≡ pty_frame_kind)
    × (get_uint8 1 output_bytes ≡ pty_frame_version))
decode_iff_example = decode_iff output_bytes

evaluate_compat_mutual_example :
    ((evaluate_compat 2 3 3 ≡ CompatResult.ok) × (evaluate_compat 1 3 3 ≡ CompatResult.ok))
    ↔ (◌≡◌ {A = ℕ} 3 3)
evaluate_compat_mutual_example = evaluate_compat_mutual 2 3 1 3 (omega arith) (omega arith)

member-negotiate_example :
    (member 4 (negotiate (1 ∷ 4 ∷ []) (4 ∷ 2 ∷ []))
      ≡ (member 4 (1 ∷ 4 ∷ []) && member 4 (4 ∷ 2 ∷ [])))
    × (member 4 (negotiate (1 ∷ 4 ∷ []) (4 ∷ 2 ∷ []))
        ≡ member 4 (negotiate (4 ∷ 2 ∷ []) (1 ∷ 4 ∷ [])))
member-negotiate_example = member-negotiate 4 (1 ∷ 4 ∷ []) (4 ∷ 2 ∷ [])
