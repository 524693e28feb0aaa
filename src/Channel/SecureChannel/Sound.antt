-- ===== src/Channel/SecureChannel/Sound.antt =====
-- packages/channel/src/channel.ts: what holds of a channel after any calls and any bytes.
pub mod Keeps
pub mod Incoming
use pherry.Base.{ℕ, ◌≤◌, ◌≡◌, Bool, true, false, List, [], ◌∷◌, Option, none, some}
use pherry.Channel.Frame.{ChannelFrame}
use pherry.Channel.Record.{Primitives, Sealer}
use pherry.Channel.SecureChannel.{Role, Handlers, SecureChannel, is_initiator, start, send, close}
use pherry.Channel.SecureChannel.Receive.{receive}

-- What is called on a channel, and the bytes that come in.
pub data Call : Type 0 where
  started closed_by_us : Call
  called_send : ChannelFrame → Call
  received : List ℕ → Call

module _ (p : Primitives) (on : Handlers) where
  abbrev pub handle : Call → SecureChannel → SecureChannel
  handle started c = start c
  handle closed_by_us c = close p c
  handle (called_send frame) c = (send p frame c).1
  handle (received bytes) c = receive p on bytes c

  abbrev pub run : List Call → SecureChannel → SecureChannel
  run [] c = c
  run (call ∷ calls) c = run calls (handle call c)

-- Before its peer is authenticated an initiator has sealed one record at most, and no channel has delivered a
-- frame; a closed channel holds no keys and neither seals nor opens.
pub record Sound (c : SecureChannel) : Type 0 where
  pub gated :
      (s : Sealer)
      → c.sealer ≡ some s
      → is_initiator c.role ≡ true
      → c.authenticated ≡ false
      → s.counter ≤ 1
  pub quiet : c.authenticated ≡ false → c.delivered ≡ []
  pub gone :
      c.closed ≡ true → (c.sealer ≡ none) × (c.opener ≡ none) × (c.keys ≡ none) × (c.opened ≡ false)
