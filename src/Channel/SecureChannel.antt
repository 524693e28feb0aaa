-- ===== src/Channel/SecureChannel.antt =====
-- packages/channel/src/channel.ts: the handshake over an injected duplex, and then frames in records. What the
-- duplex and the callbacks are handed is written down in the channel. The callbacks may send and close.
pub mod Receive
pub mod Sound
pub mod Rounds
pub mod Reached
use pherry.Base.{
  ℕ, zero, suc, ◌+◌, ◌*◌, Bool, true, false, not, ◌&&◌, ◌||◌, List, [], ◌∷◌, ◌++◌, Option, none,
  some, ltb, leb, ◌==◌, if◌then◌else◌, length,
}
use pherry.Base.Words.{uint32_be, to_uint32}
use pherry.Channel.ByteQueue.{ByteQueue, empty_queue, push, peek_uint32_be, take_bytes}
use pherry.Channel.Frame.{ChannelFrame, encode_frame, decode_frame}
use pherry.Channel.Handshake.{SessionKeys}
use pherry.Channel.Record.{
  Primitives, Direction, RecordError, Opened, Sealer, Opener, new_sealer, new_opener, seal,
  open_record, tag_bytes,
}

abbrev pub handshake_msg_bytes : ℕ
handshake_msg_bytes = 32

abbrev pub length_prefix_bytes : ℕ
length_prefix_bytes = 4

abbrev pub record_overhead_bytes : ℕ
record_overhead_bytes = 1 + tag_bytes

abbrev pub max_record_bytes : ℕ
max_record_bytes = 4 * 1024 * 1024

-- `role`
pub data Role : Type 0 where
  initiator responder : Role

-- The errors that are thrown, and those with which the channel shuts down.
pub data ChannelError : Type 0 where
  is_closed not_open not_authenticated record_too_long counter_spent bad_handshake bad_frame :
      ChannelError
  bad_record : RecordError → ChannelError

-- A promise: `#ready` and `#authed`.
pub data Promise : Type 0 where
  waiting resolved : Promise
  rejected : Option ChannelError → Promise

-- The first to settle a promise wins.
abbrev pub settle : Promise → Promise → Promise
settle by waiting = by
settle by settled = settled

-- `Handshake`: `consume` is `none` where it throws.
pub record Handshake : Type 0 where
  pub message : List ℕ
  pub consume : List ℕ → Option SessionKeys

-- What a callback asks of the channel.
pub data Action : Type 0 where
  sends : ChannelFrame → Action
  closes : Action

-- `#onFrame` and `#onOpen`.
pub record Handlers : Type 0 where
  pub on_frame : ChannelFrame → List Action
  pub on_open : List Action

-- The fields of `SecureChannel`. `sent` is what the duplex was given, `delivered` the frames that the callback
-- was given and `reports` the calls of `#onClose`, the oldest first.
pub record SecureChannel : Type 0 where
  pub role : Role
  pub handshake : Option Handshake
  pub inbound : ByteQueue
  pub keys : Option SessionKeys
  pub sealer : Option Sealer
  pub opener : Option Opener
  pub opened : Bool
  pub closed : Bool
  pub authenticated : Bool
  pub ready : Promise
  pub authed : Promise
  pub sent : List (List ℕ)
  pub delivered : List ChannelFrame
  pub reports : List (Option ChannelError)

-- The constructor.
abbrev pub new_channel : Role → Handshake → SecureChannel
new_channel role handshake = record {
  role = role;
  handshake = some handshake;
  inbound = empty_queue;
  keys = none;
  sealer = none;
  opener = none;
  opened = false;
  closed = false;
  authenticated = false;
  ready = waiting;
  authed = waiting;
  sent = [];
  delivered = [];
  reports = [];
}

-- `this.#role === 'initiator'`
abbrev pub is_initiator : Role → Bool
is_initiator initiator = true
is_initiator responder = false

-- The microtask that the constructor queues for an initiator.
unfoldable pub start_with : Option Handshake → SecureChannel → SecureChannel
start_with none c = c
start_with (some h) c =
    if is_initiator c.role && not c.closed then record c { sent = c.sent ++ h.message ∷ [] } else c

unfoldable pub start : SecureChannel → SecureChannel
start c = start_with c.handshake c

-- `#shutdown`
unfoldable pub shutdown : Option ChannelError → SecureChannel → SecureChannel
shutdown error c = if c.closed then c else record c {
  closed = true;
  opened = false;
  ready = elim c.keys [ none ↦ settle (rejected error) c.ready | some keys ↦ c.ready ];
  authed = if c.authenticated then c.authed else settle (rejected error) c.authed;
  keys = none;
  sealer = none;
  opener = none;
  reports = c.reports ++ error ∷ [];
}

-- What follows a step that may throw.
unfoldable pub and_then :
    Option ChannelError × SecureChannel
    → (SecureChannel → Option ChannelError × SecureChannel)
    → Option ChannelError × SecureChannel
and_then (none, c) f = f c
and_then (some error, c) f = (some error, c)

module _ (p : Primitives) where
  -- `send` from the sealing on; `none` is where `seal` throws.
  unfoldable pub emit :
      Option (List ℕ × Sealer) → SecureChannel → Option ChannelError × SecureChannel
  emit none c = (some counter_spent, c)
  emit (some (bytes, sealer)) c = (
    none,
    record c {
      sealer = some sealer;
      sent = c.sent ++ (uint32_be (to_uint32 (length bytes)) ++ bytes) ∷ [];
    },
  )

  -- `send` on an open channel with a sealer.
  unfoldable pub send_sealed :
      ChannelFrame → Sealer → SecureChannel → Option ChannelError × SecureChannel
  send_sealed frame sealer c =
      if is_initiator c.role && (not c.authenticated && leb 1 sealer.counter)
      then (some not_authenticated, c)
      else if ltb max_record_bytes (record_overhead_bytes + length frame.payload)
      then (some record_too_long, c)
      else emit (seal p sealer (encode_frame frame)) c

  unfoldable pub send_with :
      ChannelFrame → Option Sealer → SecureChannel → Option ChannelError × SecureChannel
  send_with frame none c = (some not_open, c)
  send_with frame (some sealer) c =
      if not c.opened then (some not_open, c) else send_sealed frame sealer c

  -- `send`: the error that it throws, if it does.
  unfoldable pub send : ChannelFrame → SecureChannel → Option ChannelError × SecureChannel
  send frame c = if c.closed then (some is_closed, c) else send_with frame c.sealer c

  -- `close`
  unfoldable pub close : SecureChannel → SecureChannel
  close c = shutdown none c

  -- The actions of a callback, up to a `send` that throws.
  unfoldable pub perform : List Action → SecureChannel → Option ChannelError × SecureChannel
  perform [] c = (none, c)
  perform (closes ∷ actions) c = perform actions (close c)
  perform (sends frame ∷ actions) c = and_then (send frame c) (perform actions)
