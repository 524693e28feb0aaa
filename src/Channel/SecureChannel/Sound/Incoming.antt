-- ===== src/Channel/SecureChannel/Sound/Incoming.antt =====
-- packages/channel/src/channel.ts: the bytes that come in keep a channel sound.
use pherry.Base.{
  ℕ, zero, suc, ◌+◌, ◌≤◌, ◌≡◌, refl, subst, false, List, [], ◌∷◌, Option, none, some, ltb, if_elim,
  some_inj, Bool-cases, inl, inr, arith,
}
use pherry.Channel.ByteQueue.{peek_uint32_be, take_bytes}
use pherry.Channel.Frame.{ChannelFrame, decode_frame}
use pherry.Channel.Handshake.{SessionKeys}
use pherry.Channel.Record.{Primitives, Opened, Sealer, Opener, new_sealer}
use pherry.Channel.SecureChannel.{
  Role, ChannelError, Handshake, Handlers, SecureChannel, new_channel, is_initiator, start, close,
  max_record_bytes, handshake_msg_bytes, length_prefix_bytes,
}
use pherry.Channel.SecureChannel.Receive.{
  Round, waits, handled, throws, after_round, deliver_frame, deliver_decoded, take_opened,
  round_with, drain_loop, open_with, consumed, complete_handshake, drain_rounds, drain, caught,
  receive,
}
use pherry.Channel.SecureChannel.Sound.{
  Call, started, closed_by_us, called_send, received, handle, run, Sound,
}
use pherry.Channel.SecureChannel.Sound.Keeps.{
  shutdown-Sound, start_with-Sound, and_then-Sound, send-Sound, perform-Sound,
}

-- A channel with an opener is not closed.
live : (c : SecureChannel) (o : Opener) → c.opener ≡ some o → Sound c → c.closed ≡ false
live c o e h = elim (Bool-cases c.closed) [
  | inl q ↦ absurd (let gone = (h.gone q).1 in cc)
  | inr q ↦ q
]

after_round-Sound :
    (r : Round × SecureChannel) (f : SecureChannel → Option ChannelError × SecureChannel)
    → Sound r.1
    → ((c : SecureChannel) → Sound c → Sound (f c).1)
    → Sound (after_round r f).1
unfolding after_round
after_round-Sound (waits, c) f h step = h
after_round-Sound (handled, c) f h step = step c h
after_round-Sound (throws e, c) f h step = h

module _ (p : Primitives) (on : Handlers) where
  deliver_frame-Sound :
      (frame : ChannelFrame) (c : SecureChannel) → Sound c → Sound (deliver_frame p on frame c)
  unfolding deliver_frame
  deliver_frame-Sound frame c h =
      perform-Sound p (on.on_frame frame) _
        (record { gated = λ s q i a. absurd (cc); quiet = λ a. absurd (cc); gone = h.gone })

  deliver_decoded-Sound :
      (o : Option ChannelFrame) (c : SecureChannel) → Sound c → Sound (deliver_decoded p on o c).1
  unfolding deliver_decoded
  deliver_decoded-Sound none c h = h
  deliver_decoded-Sound (some frame) c h = deliver_frame-Sound frame c h

  take_opened-Sound :
      (r : Opened × Opener) (c : SecureChannel)
      → c.closed ≡ false
      → Sound c
      → Sound (take_opened p on r c).1
  unfolding take_opened
  take_opened-Sound (Opened.fails e, opener) c open_ h = record {
    gated = h.gated;
    quiet = h.quiet;
    gone = λ q. absurd (cc);
  }
  take_opened-Sound (Opened.opens bytes, opener) c open_ h =
      deliver_decoded-Sound (decode_frame bytes) _
        (record { gated = h.gated; quiet = h.quiet; gone = λ q. absurd (cc) })

  round_with-Sound :
      (o : Option Opener) (c : SecureChannel)
      → c.opener ≡ o
      → Sound c
      → Sound (round_with p on o c).1
  unfolding round_with
  round_with-Sound none c e h = h
  round_with-Sound (some opener) c e h =
      let P : Round × SecureChannel → Type 0 = λ r. Sound r.1 in
      let size = peek_uint32_be c.inbound in
      if_elim P (ltb c.inbound.byte_length length_prefix_bytes) _ _ (λ _. h)
        (λ _.
          if_elim P (ltb max_record_bytes size) _ _ (λ _. h)
            (λ _.
              if_elim P (ltb c.inbound.byte_length (length_prefix_bytes + size)) _ _ (λ _. h)
                (λ _.
                  take_opened-Sound _ _ (live c opener e h)
                    (record { gated = h.gated; quiet = h.quiet; gone = h.gone }))))

  drain_loop-Sound : (fuel : ℕ) (c : SecureChannel) → Sound c → Sound (drain_loop p on fuel c).1
  unfolding drain_loop
  drain_loop-Sound zero c h = h
  drain_loop-Sound (suc fuel) c h =
      after_round-Sound (round_with p on c.opener c) (drain_loop p on fuel)
        (round_with-Sound c.opener c refl h) (drain_loop-Sound fuel)

  open_with-Sound :
      (keys : SessionKeys) (handshake : Handshake) (c : SecureChannel)
      → c.closed ≡ false
      → Sound c
      → Sound (open_with p on keys handshake c).1
  unfolding open_with new_sealer
  open_with-Sound keys handshake c open_ h = perform-Sound p on.on_open _ (record {
    gated = λ s q i a.
        subst (λ (x : Sealer). x.counter ≤ 1) (some_inj q)
          (if_elim (λ (x : Sealer). x.counter ≤ 1) (is_initiator c.role) _ _ (λ _. omega arith)
            (λ _. omega arith));
    quiet = h.quiet;
    gone = λ q. absurd (cc);
  })

  consumed-Sound :
      (o : Option SessionKeys) (handshake : Handshake) (c : SecureChannel)
      → c.closed ≡ false
      → Sound c
      → Sound (consumed p on o handshake c).1
  unfolding consumed
  consumed-Sound none handshake c open_ h = h
  consumed-Sound (some keys) handshake c open_ h = open_with-Sound keys handshake c open_ h

  complete_handshake-Sound :
      (message : List ℕ) (o : Option Handshake) (c : SecureChannel)
      → c.closed ≡ false
      → Sound c
      → Sound (complete_handshake p on message o c).1
  unfolding complete_handshake
  complete_handshake-Sound message none c open_ h = h
  complete_handshake-Sound message (some handshake) c open_ h =
      consumed-Sound (handshake.consume message) handshake c open_ h

  drain-Sound : (c : SecureChannel) → c.closed ≡ false → Sound c → Sound (drain p on c).1
  unfolding drain drain_rounds
  drain-Sound c open_ h =
      let P : Option ChannelError × SecureChannel → Type 0 = λ r. Sound r.1 in
      if_elim P c.opened _ _ (λ _. drain_loop-Sound _ c h)
        (λ _.
          if_elim P (ltb c.inbound.byte_length handshake_msg_bytes) _ _ (λ _. h)
            (λ _.
              and_then-Sound
                (complete_handshake p on (take_bytes handshake_msg_bytes c.inbound).0 c.handshake
                  (record c { inbound = (take_bytes handshake_msg_bytes c.inbound).1 }))
                (drain_rounds p on)
                (complete_handshake-Sound _ c.handshake _ open_
                  (record { gated = h.gated; quiet = h.quiet; gone = h.gone }))
                (λ c' h'. drain_loop-Sound _ c' h')))

  caught-Sound : (r : Option ChannelError × SecureChannel) → Sound r.1 → Sound (caught p on r)
  unfolding caught
  caught-Sound (none, c) h = h
  caught-Sound (some e, c) h = shutdown-Sound (some e) c h

  handle-Sound : (call : Call) (c : SecureChannel) → Sound c → Sound (handle p on call c)
  unfolding start close receive
  handle-Sound started c h = start_with-Sound c.handshake c h
  handle-Sound closed_by_us c h = shutdown-Sound none c h
  handle-Sound (called_send frame) c h = send-Sound p frame c h
  handle-Sound (received bytes) c h =
      if_elim Sound c.closed c _ (λ _. h)
        (λ open_.
          caught-Sound _
            (drain-Sound _ open_ (record { gated = h.gated; quiet = h.quiet; gone = h.gone })))

  run_from : (calls : List Call) (c : SecureChannel) → Sound c → Sound (run p on calls c)
  run_from [] c h = h
  run_from (call ∷ calls) c h = run_from calls (handle p on call c) (handle-Sound call c h)

  -- After any calls, callbacks and bytes: before its peer is authenticated an initiator has sealed one record at
  -- most, and no frame has been delivered; and a channel that has closed holds no keys, sealer or opener.
  pub run-Sound :
      (role : Role) (handshake : Handshake) (calls : List Call)
      → Sound (run p on calls (new_channel role handshake))
  run-Sound role handshake calls =
      run_from calls (new_channel role handshake)
        (record { gated = λ s q i a. absurd (cc); quiet = λ _. refl; gone = λ q. absurd (cc) })
