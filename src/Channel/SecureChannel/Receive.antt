-- ===== src/Channel/SecureChannel/Receive.antt =====
-- packages/channel/src/channel.ts: the bytes that come in, first the handshake's message and then records.
use pherry.Base.{
  ℕ, zero, suc, ◌+◌, true, List, [], ◌∷◌, ◌++◌, Option, none, some, ltb, if◌then◌else◌,
}
use pherry.Channel.ByteQueue.{push, peek_uint32_be, take_bytes}
use pherry.Channel.Frame.{ChannelFrame, decode_frame}
use pherry.Channel.Handshake.{SessionKeys}
use pherry.Channel.Record.{
  Primitives, Direction, Opened, Opener, new_sealer, new_opener, open_record,
}
use pherry.Channel.SecureChannel.{
  ChannelError, Promise, settle, Handshake, Handlers, SecureChannel, is_initiator, shutdown,
  perform, and_then, handshake_msg_bytes, length_prefix_bytes, max_record_bytes,
}

-- What a round of the loop does: it waits for bytes (or the channel is closed), throws, or has handled a
-- record.
pub data Round : Type 0 where
  waits handled : Round
  throws : ChannelError → Round

-- What follows a round.
unfoldable pub after_round :
    Round × SecureChannel
    → (SecureChannel → Option ChannelError × SecureChannel)
    → Option ChannelError × SecureChannel
after_round (waits, c) f = (none, c)
after_round (handled, c) f = f c
after_round (throws e, c) f = (some e, c)

module _ (p : Primitives) (on : Handlers) where
  -- `#deliverFrame`, once the record has opened. What the callback throws does not reach the channel.
  unfoldable pub deliver_frame : ChannelFrame → SecureChannel → SecureChannel
  deliver_frame frame c =
      (perform p (on.on_frame frame) (record c {
        authenticated = true;
        authed = if c.authenticated then c.authed else settle Promise.resolved c.authed;
        delivered = c.delivered ++ frame ∷ [];
      })).1

  unfoldable pub deliver_decoded : Option ChannelFrame → SecureChannel → Round × SecureChannel
  deliver_decoded none c = (throws ChannelError.bad_frame, c)
  deliver_decoded (some frame) c = (handled, deliver_frame frame c)

  -- The record that was opened, with the opener after it.
  unfoldable pub take_opened : Opened × Opener → SecureChannel → Round × SecureChannel
  take_opened (Opened.fails e, opener) c =
      (throws (ChannelError.bad_record e), record c { opener = some opener })
  take_opened (Opened.opens bytes, opener) c =
      deliver_decoded (decode_frame bytes) (record c { opener = some opener })

  -- The body of the loop of `#drain`, on the opener.
  unfoldable pub round_with : Option Opener → SecureChannel → Round × SecureChannel
  round_with none c = (waits, c)
  round_with (some opener) c =
      let size = peek_uint32_be c.inbound in
      let behind = (take_bytes length_prefix_bytes c.inbound).1 in
      let (bytes, inbound) = take_bytes size behind in
      if ltb c.inbound.byte_length length_prefix_bytes
      then (waits, c)
      else if ltb max_record_bytes size
      then (throws ChannelError.record_too_long, c)
      else if ltb c.inbound.byte_length (length_prefix_bytes + size)
      then (waits, c)
      else take_opened (open_record p opener bytes) (record c { inbound = inbound })

  -- The loop of `#drain` on its rounds: what it throws, and the channel.
  unfoldable pub drain_loop : ℕ → SecureChannel → Option ChannelError × SecureChannel
  drain_loop zero c = (none, c)
  drain_loop (suc fuel) c = after_round (round_with c.opener c) (drain_loop fuel)

  -- `#completeHandshake` once the keys are there.
  unfoldable pub open_with :
      SessionKeys → Handshake → SecureChannel → Option ChannelError × SecureChannel
  open_with keys handshake c =
      let initiating = is_initiator c.role in
      let i2r = Direction.initiator_to_responder in
      let r2i = Direction.responder_to_initiator in
      perform p on.on_open (record c {
        sent = if initiating then c.sent else c.sent ++ handshake.message ∷ [];
        keys = some keys;
        sealer = some (
            if initiating
            then new_sealer p keys.key_i2r keys.session_id i2r
            else new_sealer p keys.key_r2i keys.session_id r2i);
        opener = some (
            if initiating
            then new_opener p keys.key_r2i keys.session_id r2i
            else new_opener p keys.key_i2r keys.session_id i2r);
        opened = true;
        handshake = none;
        ready = settle Promise.resolved c.ready;
      })

  unfoldable pub consumed :
      Option SessionKeys → Handshake → SecureChannel → Option ChannelError × SecureChannel
  consumed none handshake c = (some ChannelError.bad_handshake, c)
  consumed (some keys) handshake c = open_with keys handshake c

  -- `#completeHandshake`
  unfoldable pub complete_handshake :
      List ℕ → Option Handshake → SecureChannel → Option ChannelError × SecureChannel
  complete_handshake peer_message none c = (none, c)
  complete_handshake peer_message (some handshake) c =
      consumed (handshake.consume peer_message) handshake c

  -- The loop of `#drain`. A round that goes on takes four bytes or more, so the
  -- bytes that are buffered are rounds enough.
  unfoldable pub drain_rounds : SecureChannel → Option ChannelError × SecureChannel
  drain_rounds c = drain_loop (suc c.inbound.byte_length) c

  -- `#drain`
  unfoldable pub drain : SecureChannel → Option ChannelError × SecureChannel
  drain c =
      let (peer_message, inbound) = take_bytes handshake_msg_bytes c.inbound in
      if c.opened
      then drain_rounds c
      else if ltb c.inbound.byte_length handshake_msg_bytes
      then (none, c)
      else and_then (complete_handshake peer_message c.handshake (record c { inbound = inbound }))
          drain_rounds

  unfoldable pub caught : Option ChannelError × SecureChannel → SecureChannel
  caught (none, c) = c
  caught (some e, c) = shutdown (some e) c

  -- `#receive`
  unfoldable pub receive : List ℕ → SecureChannel → SecureChannel
  receive bytes c =
      if c.closed then c else caught (drain (record c { inbound = push bytes c.inbound }))
