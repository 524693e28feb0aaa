-- ===== src/Channel/Runs.antt =====
-- The byte queue, the handshake and the state machine of packages/channel at fixed inputs.
use pherry.Base.{suc, ◌+◌, ◌≡◌, refl, List, [], ◌∷◌, ◌++◌, none, some, replicate, take}
use pherry.Channel.ByteQueue.{empty_queue, push}
use pherry.Channel.ByteQueue.Flat.{
  Operation, pushed, taken, outputs, flat_outputs, outputs-empty_queue,
}
use pherry.Channel.Frame.{FrameTag, ChannelFrame}
use pherry.Channel.Handshake.{
  initiator_handshake, responder_handshake, KeyScheduleInput, salt_input, context_bytes,
}
use pherry.Channel.Handshake
use pherry.Channel.Handshake.Agreement.{Agrees, consume_agree, salt_input_binds}
use pherry.Channel.Record.{Primitives}
use pherry.Channel.SecureChannel.{
  Handshake, Handlers, SecureChannel, new_channel, sends, closes, initiator,
}
use pherry.Channel.SecureChannel.Receive.{drain_loop, drain_rounds}
use pherry.Channel.SecureChannel.Reached.{drain_rounds_enough}
use pherry.Channel.SecureChannel.Sound.{Call, started, called_send, received, run, Sound}
use pherry.Channel.SecureChannel.Sound.Incoming.{run-Sound}

abbrev chunked : List Operation
chunked = pushed (1 ∷ 2 ∷ 3 ∷ []) ∷ taken 2 ∷ pushed (4 ∷ []) ∷ taken 3 ∷ taken 2 ∷ []

outputs-empty_queue_example : outputs chunked empty_queue ≡ flat_outputs chunked []
outputs-empty_queue_example = outputs-empty_queue chunked

-- A toy group: every secret has the same public key and shared secret.
abbrev toy_group : Handshake.Primitives
toy_group = record {
  get_public_key = λ secret. replicate 32 9;
  get_shared_secret = λ secret public. some (replicate 32 5);
  sha256 = λ bytes. replicate 32 0;
  hkdf = λ ikm salt info n. take n (ikm ++ salt);
}

toy_group-Agrees : Agrees toy_group
toy_group-Agrees = record { commutes = λ a b. refl; length_public = λ a. refl }

consume_agree_example :
    (h : Handshake.Handshake toy_group) × (initiator_handshake toy_group
        (1 ∷ [])
        (replicate 32 9)
        none
      ≡ some h)
    × (h.consume (responder_handshake toy_group (2 ∷ []) (3 ∷ []) none).message
        ≡ (responder_handshake toy_group (2 ∷ []) (3 ∷ []) none).consume h.message)
consume_agree_example = consume_agree toy_group toy_group-Agrees (1 ∷ []) (2 ∷ []) (3 ∷ []) none

-- A cipher that leaves the text as it is.
-- Two ends that saw the same messages, one without a context and one with an empty one.
abbrev without_context : KeyScheduleInput
without_context = record {
  dh_ee = 1 ∷ [];
  dh_es = 2 ∷ [];
  initiator_ephemeral_pub = replicate 32 9;
  responder_ephemeral_pub = replicate 32 8;
  context = none;
}

abbrev empty_context : KeyScheduleInput
empty_context = record without_context { dh_ee = 3 ∷ []; context = some [] }

same_input : salt_input without_context ≡ salt_input empty_context
unfolding salt_input
same_input = refl

salt_input_binds_example :
    (without_context.initiator_ephemeral_pub ≡ empty_context.initiator_ephemeral_pub)
    × (without_context.responder_ephemeral_pub ≡ empty_context.responder_ephemeral_pub)
    × (context_bytes none ≡ context_bytes (some []))
salt_input_binds_example =
    salt_input_binds without_context empty_context refl refl refl refl same_input

abbrev plain : Primitives
plain = record {
  sha256 = λ bytes. replicate 32 0;
  encrypt = λ key nonce frame. frame ++ replicate 16 0;
  decrypt = λ key nonce bytes. some bytes;
}

abbrev greeting : ChannelFrame
greeting = record { tag = FrameTag.control; payload = 104 ∷ [] }

-- Callbacks that greet, and close at the first frame.
abbrev curt : Handlers
curt = record { on_frame = λ frame. sends frame ∷ closes ∷ []; on_open = sends greeting ∷ [] }

abbrev fixed : Handshake
fixed = record {
  message = replicate 32 9;
  consume = λ peer. some (record { key_i2r = []; key_r2i = []; session_id = [] });
}

abbrev exchange : List Call
exchange =
    started ∷ received (replicate 40 7) ∷ called_send greeting ∷ received (0 ∷ 0 ∷ 0 ∷ []) ∷ []

run-Sound_example : Sound (run plain curt exchange (new_channel initiator fixed))
run-Sound_example = run-Sound plain curt initiator fixed exchange

-- Callbacks that echo every frame.
abbrev echo : Handlers
echo = record { on_frame = λ frame. sends frame ∷ []; on_open = [] }

-- The peer's public key, and the beginning of a record of 20 bytes, of which one is missing.
abbrev first_part : List Call
first_part = started ∷ received (replicate 32 7 ++ (0 ∷ 0 ∷ 0 ∷ 20 ∷ 2 ∷ replicate 18 7)) ∷ []

abbrev reached : SecureChannel
reached = run plain echo first_part (new_channel initiator fixed)

drain_rounds_enough_example :
    drain_loop plain echo
      (suc (push (1 ∷ []) reached.inbound).byte_length + 5)
      (record reached { inbound = push (1 ∷ []) reached.inbound })
    ≡ drain_rounds plain echo (record reached { inbound = push (1 ∷ []) reached.inbound })
drain_rounds_enough_example = drain_rounds_enough plain echo initiator fixed first_part (1 ∷ []) 5
