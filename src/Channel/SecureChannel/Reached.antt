-- ===== src/Channel/SecureChannel/Reached.antt =====
-- packages/channel/src/channel.ts: on every channel that calls and bytes can lead to, `#drain` ends.
use pherry.Base.{
  ℕ, zero, suc, ◌+◌, ◌≡◌, refl, sym, subst, not, ◌&&◌, List, [], ◌∷◌, Option, none, some, ltb,
  if_elim, arith,
}
use pherry.Channel.ByteQueue.{push, take_bytes}
use pherry.Channel.ByteQueue.Content.{content, IsValid, content-push}
use pherry.Channel.Handshake.{SessionKeys}
use pherry.Channel.Record.{Primitives}
use pherry.Channel.SecureChannel.{
  Role, ChannelError, Handshake, Handlers, SecureChannel, new_channel, is_initiator, start_with,
  start, and_then, close, handshake_msg_bytes,
}
use pherry.Channel.SecureChannel.Receive.{
  Round, waits, handled, throws, after_round, round_with, drain_loop, open_with, consumed,
  complete_handshake, drain_rounds, drain, caught, receive,
}
use pherry.Channel.SecureChannel.Sound.{
  Call, started, closed_by_us, called_send, received, handle, run,
}
use pherry.Channel.SecureChannel.Rounds.{
  shutdown_inbound, send_inbound, perform_inbound, taken, round_with-Shorter, drain_loop_enough,
}

-- A channel with a well-formed queue.
abbrev Queued : SecureChannel → Type 0
Queued c = IsValid c.inbound

start_with_inbound :
    (o : Option Handshake) (c : SecureChannel) → (start_with o c).inbound ≡ c.inbound
unfolding start_with
start_with_inbound none c = refl
start_with_inbound (some h) c =
    if_elim (λ (x : SecureChannel). x.inbound ≡ c.inbound) (is_initiator c.role && not c.closed) _ c
      (λ _. refl) (λ _. refl)

after_round-Queued :
    (r : Round × SecureChannel) (f : SecureChannel → Option ChannelError × SecureChannel)
    → Queued r.1
    → ((c : SecureChannel) → Queued c → Queued (f c).1)
    → Queued (after_round r f).1
unfolding after_round
after_round-Queued (waits, c) f v step = v
after_round-Queued (handled, c) f v step = step c v
after_round-Queued (throws e, c) f v step = v

and_then-Queued :
    (r : Option ChannelError × SecureChannel)
    (f : SecureChannel → Option ChannelError × SecureChannel)
    → Queued r.1
    → ((c : SecureChannel) → Queued c → Queued (f c).1)
    → Queued (and_then r f).1
unfolding and_then
and_then-Queued (none, c) f v step = step c v
and_then-Queued (some e, c) f v step = v

module _ (p : Primitives) (on : Handlers) where
  drain_loop-Queued : (fuel : ℕ) (c : SecureChannel) → Queued c → Queued (drain_loop p on fuel c).1
  unfolding drain_loop
  drain_loop-Queued zero c v = v
  drain_loop-Queued (suc fuel) c v =
      after_round-Queued (round_with p on c.opener c) (drain_loop p on fuel)
        (round_with-Shorter p on c.opener c v).0 (drain_loop-Queued fuel)

  consumed_inbound :
      (o : Option SessionKeys) (handshake : Handshake) (c : SecureChannel)
      → (consumed p on o handshake c).1.inbound ≡ c.inbound
  unfolding consumed open_with
  consumed_inbound none handshake c = refl
  consumed_inbound (some keys) handshake c = perform_inbound p on.on_open _

  complete_handshake_inbound :
      (message : List ℕ) (o : Option Handshake) (c : SecureChannel)
      → (complete_handshake p on message o c).1.inbound ≡ c.inbound
  unfolding complete_handshake
  complete_handshake_inbound message none c = refl
  complete_handshake_inbound message (some handshake) c =
      consumed_inbound (handshake.consume message) handshake c

  drain-Queued : (c : SecureChannel) → Queued c → Queued (drain p on c).1
  unfolding drain drain_rounds
  drain-Queued c v =
      let P : Option ChannelError × SecureChannel → Type 0 = λ r. Queued r.1 in
      if_elim P c.opened _ _ (λ _. drain_loop-Queued _ c v)
        (λ _.
          if_elim P (ltb c.inbound.byte_length handshake_msg_bytes) _ _ (λ _. v)
            (λ t.
              let (valid, left) = taken p on c.inbound handshake_msg_bytes v (ground arith) in
              and_then-Queued
                (complete_handshake p on (take_bytes handshake_msg_bytes c.inbound).0 c.handshake
                  (record c { inbound = (take_bytes handshake_msg_bytes c.inbound).1 }))
                (drain_rounds p on)
                (subst IsValid (sym (complete_handshake_inbound _ c.handshake _)) valid)
                (λ c' v'. drain_loop-Queued _ c' v')))

  caught-Queued : (r : Option ChannelError × SecureChannel) → Queued r.1 → Queued (caught p on r)
  unfolding caught
  caught-Queued (none, c) v = v
  caught-Queued (some e, c) v = subst IsValid (sym (shutdown_inbound (some e) c)) v

  handle-Queued : (call : Call) (c : SecureChannel) → Queued c → Queued (handle p on call c)
  unfolding start close receive
  handle-Queued started c v = subst IsValid (sym (start_with_inbound c.handshake c)) v
  handle-Queued closed_by_us c v = subst IsValid (sym (shutdown_inbound none c)) v
  handle-Queued (called_send frame) c v = subst IsValid (sym (send_inbound p frame c)) v
  handle-Queued (received bytes) c v =
      if_elim Queued c.closed c _ (λ _. v)
        (λ _. caught-Queued _ (drain-Queued _ (content-push bytes c.inbound v).1))

  run-Queued : (calls : List Call) (c : SecureChannel) → Queued c → Queued (run p on calls c)
  run-Queued [] c v = v
  run-Queued (call ∷ calls) c v = run-Queued calls (handle p on call c) (handle-Queued call c v)

  -- Bytes that reach a channel, whatever was called on it and came in before: more rounds of the loop than it
  -- is given change nothing, so it has ended by itself.
  pub drain_rounds_enough :
      (role : Role) (handshake : Handshake) (calls : List Call) (bytes : List ℕ) (k : ℕ)
      → let c = run p on calls (new_channel role handshake) in
        let reached = record c { inbound = push bytes c.inbound } in
        drain_loop p on (suc reached.inbound.byte_length + k) reached ≡ drain_rounds p on reached
  unfolding drain_rounds content
  drain_rounds_enough role handshake calls bytes k =
      let start_ = new_channel role handshake in
      let c = run p on calls start_ in
      let v =
        run-Queued calls start_
          (record { counted = refl; within = tt; room = omega arith; few = omega arith }) in
      drain_loop_enough p on (suc (push bytes c.inbound).byte_length) k
        (record c { inbound = push bytes c.inbound }) (content-push bytes c.inbound v).1
        (omega arith)
