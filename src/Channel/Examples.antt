-- ===== src/Channel/Examples.antt =====
-- Frames and records of packages/channel at fixed inputs.
use pherry.Base.{
  ℕ_discrete, ap₂, sym, ◌≢◌, All, inl, inr, ℕ, ◌≡◌, ◌↔◌, refl, List, [], ◌∷◌, ◌++◌, Option, none,
  some, ◌==◌, if◌then◌else◌, arith, take, length, replicate,
}
use pherry.Channel.Keys.{constant_time_equal}
use pherry.Channel.Frame.{FrameTag, ChannelFrame, decode_frame, encode_frame, decode_frame_iff}
use pherry.Channel.Record.{
  Primitives, Sealer, Opener, nonce_for, seal, open_record, redelivered, record_tag_equals,
}
use pherry.Channel.Record.Delivery.{Known, Separates, open_all_delivered}
use pherry.Channel.Record.Stream.{
  nonce_for_injective, seal_all, open_all, Paired, IsFresh, seal_all-open_all,
}

abbrev typed : ChannelFrame
typed = record { tag = FrameTag.binary; payload = 104 ∷ 105 ∷ [] }

decode_frame_iff_example :
    (decode_frame (2 ∷ 104 ∷ 105 ∷ []) ≡ some typed) ↔ ((2 ∷ 104 ∷ 105 ∷ []) ≡ encode_frame typed)
decode_frame_iff_example = decode_frame_iff (2 ∷ 104 ∷ 105 ∷ []) typed

nonce_for_injective_example : ◌≡◌ {A = ℕ} 4294967296 4294967296
nonce_for_injective_example =
    nonce_for_injective (1 ∷ []) 4294967296 4294967296 (omega arith) (omega arith) refl

-- A cipher that writes the nonce in front of the text, and checks it.
strip_prefix : List ℕ → List ℕ → Option (List ℕ)
strip_prefix [] bytes = some bytes
strip_prefix (n ∷ nonce) [] = none
strip_prefix (n ∷ nonce) (b ∷ bytes) = if n == b then strip_prefix nonce bytes else none

abbrev toy : Primitives
toy = record {
  sha256 = λ bytes. replicate 32 0;
  encrypt = λ key nonce frame. nonce ++ frame;
  decrypt = λ key nonce bytes. strip_prefix nonce bytes;
}

strip_prefix_append : (nonce frame : List ℕ) → strip_prefix nonce (nonce ++ frame) ≡ some frame
unfolding strip_prefix
strip_prefix_append [] frame = refl
strip_prefix_append (n ∷ nonce) frame = ground (arith, strip_prefix_append nonce frame)

abbrev sealer : Sealer
sealer = record { key = []; nonce_prefix = replicate 16 0; counter = 0 }

abbrev opener : Opener
opener = record { key = []; nonce_prefix = replicate 16 0; counter = 0; last_tag = none }

paired : Paired toy sealer opener
paired = record { key = refl; nonce_prefix = refl; counter = refl }

abbrev two_frames : List (List ℕ)
two_frames = (1 ∷ 104 ∷ []) ∷ (2 ∷ 105 ∷ []) ∷ []

fresh : IsFresh toy none (seal_all toy sealer two_frames)
unfolding IsFresh seal_all seal nonce_for
fresh = ((λ e. cc), ((λ e. cc), tt))

seal_all-open_all_example : open_all toy opener (seal_all toy sealer two_frames) ≡ two_frames
seal_all-open_all_example =
    seal_all-open_all toy (λ key nonce frame. strip_prefix_append nonce frame) two_frames sealer
      opener paired (omega arith) fresh

strip_prefix_apart :
    (m n frame : List ℕ) → length m ≡ length n → n ≢ m → strip_prefix m (n ++ frame) ≡ none
unfolding strip_prefix
strip_prefix_apart [] [] frame h differ = absurd (differ refl)
strip_prefix_apart [] (b ∷ n) frame h differ = absurd (omega arith)
strip_prefix_apart (a ∷ m) [] frame h differ = absurd (omega arith)
strip_prefix_apart (a ∷ m) (b ∷ n) frame h differ = elim (ℕ_discrete a b) [
  | yes e ↦
      let rest : strip_prefix m (n ++ frame) ≡ none =
        strip_prefix_apart m n frame (omega arith) (λ q. differ (ap₂ (λ x xs. x ∷ xs) (sym e) q)) in
      ground arith
  | no e ↦ ground arith
]

same_length :
    (i j : ℕ) → length (nonce_for (replicate 16 0) i) ≡ length (nonce_for (replicate 16 0) j)
unfolding nonce_for
same_length i j = refl

toy-Separates : Separates toy [] (replicate 16 0)
toy-Separates = record {
  inverse = λ nonce frame. strip_prefix_append nonce frame;
  apart = λ i j frame differ.
      strip_prefix_apart (nonce_for (replicate 16 0) j) (nonce_for (replicate 16 0) i) frame
        (same_length j i) differ;
}

-- The second record comes first, then the first record twice, bytes that are none, and the second again.
abbrev reordered : List (List ℕ)
reordered =
    (replicate 23 0 ++ 1 ∷ 2 ∷ 105 ∷ [])
    ∷ (replicate 24 0 ++ 1 ∷ 104 ∷ [])
    ∷ (replicate 24 0 ++ 1 ∷ 104 ∷ [])
    ∷ []
    ∷ (replicate 23 0 ++ 1 ∷ 2 ∷ 105 ∷ [])
    ∷ []

known : All (Known toy sealer two_frames) reordered
unfolding seal_all seal nonce_for strip_prefix
known = (inl (1, refl), (inl (0, refl), (inl (0, refl), (inr (λ n. refl), (inl (1, refl), tt)))))

-- What is taken out is the two frames.
reordered_opened : open_all toy opener reordered ≡ two_frames
unfolding open_all open_record redelivered record_tag_equals constant_time_equal nonce_for
    strip_prefix
reordered_opened = refl

open_all_delivered_example :
    open_all toy opener reordered ≡ take (length (open_all toy opener reordered)) two_frames
open_all_delivered_example =
    open_all_delivered toy sealer opener two_frames reordered toy-Separates paired (omega arith)
      known
