-- ===== src/Channel/Frame.antt =====
-- packages/channel/src/frame.ts: the tagged plaintext of a record.
use pherry.Base.{ℕ, ◌≡◌, ◌↔◌, refl, List, [], ◌∷◌, Option, none, some, ◌==◌, if◌then◌else◌, arith}

-- `FrameTag`
pub data FrameTag : Type 0 where
  control binary : FrameTag

-- `ChannelFrame`
pub record ChannelFrame : Type 0 where
  pub tag : FrameTag
  pub payload : List ℕ

unfoldable pub tag_byte : FrameTag → ℕ
tag_byte FrameTag.control = 1
tag_byte FrameTag.binary = 2

-- `encodeFrame`
unfoldable pub encode_frame : ChannelFrame → List ℕ
encode_frame f = tag_byte f.tag ∷ f.payload

-- `decodeFrame`: `none` where it throws.
unfoldable pub decode_frame : List ℕ → Option ChannelFrame
decode_frame [] = none
decode_frame (tag ∷ payload) =
    if tag == 1
    then some (record { tag = FrameTag.control; payload = payload })
    else if tag == 2
    then some (record { tag = FrameTag.binary; payload = payload })
    else none

decoded :
    (tag : FrameTag) (payload : List ℕ)
    → decode_frame (tag_byte tag ∷ payload) ≡ some (record { tag = tag; payload = payload })
unfolding decode_frame tag_byte
decoded FrameTag.control payload = refl
decoded FrameTag.binary payload = refl

encoded : (bytes : List ℕ) (f : ChannelFrame) → decode_frame bytes ≡ some f → bytes ≡ encode_frame f
unfolding decode_frame encode_frame tag_byte
encoded [] f e = cc
encoded (tag ∷ payload) f e = grind arith

-- Bytes decode to a frame exactly if they are that frame's encoding.
pub decode_frame_iff :
    (bytes : List ℕ) (f : ChannelFrame) → (decode_frame bytes ≡ some f) ↔ (bytes ≡ encode_frame f)
unfolding encode_frame
decode_frame_iff bytes f = (encoded bytes f, λ e. rw e (decoded f.tag f.payload))
