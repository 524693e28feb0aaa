-- ===== src/Channel/SecureChannel/Rounds.antt =====
-- packages/channel/src/channel.ts: the loop of `#drain` ends.
use pherry.Base.{
  ℕ, zero, suc, ◌+◌, ◌≤◌, ◌<◌, ◌≡◌, refl, sym, ap, subst, ◌∙◌, not, ◌&&◌, List, [], ◌∷◌, Option,
  none, some, ltb, leb, length, if_elim, arith, length-drop,
}
use pherry.Channel.ByteQueue.{ByteQueue, peek_uint32_be, take_bytes}
use pherry.Channel.ByteQueue.Content.{content, IsValid}
use pherry.Channel.ByteQueue.Take.{content-take_bytes}
use pherry.Channel.Frame.{ChannelFrame, encode_frame, decode_frame}
use pherry.Channel.Record.{Primitives, Opened, Sealer, Opener, seal, open_record}
use pherry.Channel.SecureChannel.{
  ChannelError, Action, sends, closes, Handlers, SecureChannel, is_initiator, shutdown, and_then,
  emit, send_sealed, send_with, send, close, perform, max_record_bytes, record_overhead_bytes,
  length_prefix_bytes,
}
use pherry.Channel.SecureChannel.Receive.{
  Round, waits, handled, throws, after_round, deliver_frame, deliver_decoded, take_opened,
  round_with, drain_loop,
}

-- No call of a callback touches the inbound bytes.
pub shutdown_inbound :
    (e : Option ChannelError) (c : SecureChannel) → (shutdown e c).inbound ≡ c.inbound
unfolding shutdown
shutdown_inbound e c =
    if_elim (λ (x : SecureChannel). x.inbound ≡ c.inbound) c.closed c _ (λ _. refl) (λ _. refl)

and_then_inbound :
    (q : ByteQueue) (r : Option ChannelError × SecureChannel)
    (f : SecureChannel → Option ChannelError × SecureChannel)
    → r.1.inbound ≡ q
    → ((c : SecureChannel) → (f c).1.inbound ≡ c.inbound)
    → (and_then r f).1.inbound ≡ q
unfolding and_then
and_then_inbound q (none, c) f e same = same c ∙ e
and_then_inbound q (some x, c) f e same = e

module _ (p : Primitives) where
  emit_inbound :
      (o : Option (List ℕ × Sealer)) (c : SecureChannel) → (emit p o c).1.inbound ≡ c.inbound
  unfolding emit
  emit_inbound none c = refl
  emit_inbound (some (bytes, sealer)) c = refl

  send_with_inbound :
      (frame : ChannelFrame) (o : Option Sealer) (c : SecureChannel)
      → (send_with p frame o c).1.inbound ≡ c.inbound
  unfolding send_with send_sealed
  send_with_inbound frame none c = refl
  send_with_inbound frame (some s) c =
      let P : Option ChannelError × SecureChannel → Type 0 = λ r. r.1.inbound ≡ c.inbound in
      if_elim P (not c.opened) _ _ (λ _. refl)
        (λ _.
          if_elim P (is_initiator c.role && (not c.authenticated && leb 1 s.counter)) _ _
            (λ _. refl)
            (λ _.
              if_elim P (ltb max_record_bytes (record_overhead_bytes + length frame.payload)) _ _
                (λ _. refl) (λ _. emit_inbound (seal p s (encode_frame frame)) c)))

  pub send_inbound :
      (frame : ChannelFrame) (c : SecureChannel) → (send p frame c).1.inbound ≡ c.inbound
  unfolding send
  send_inbound frame c =
      if_elim (λ (r : Option ChannelError × SecureChannel). r.1.inbound ≡ c.inbound) c.closed _ _
        (λ _. refl) (λ _. send_with_inbound frame c.sealer c)

  pub perform_inbound :
      (actions : List Action) (c : SecureChannel) → (perform p actions c).1.inbound ≡ c.inbound
  unfolding perform close
  perform_inbound [] c = refl
  perform_inbound (closes ∷ actions) c =
      perform_inbound actions (shutdown none c) ∙ shutdown_inbound none c
  perform_inbound (sends frame ∷ actions) c =
      and_then_inbound c.inbound (send p frame c) (perform p actions) (send_inbound frame c)
        (perform_inbound actions)

module _ (p : Primitives) (on : Handlers) where
  take_opened_inbound :
      (r : Opened × Opener) (c : SecureChannel) → (take_opened p on r c).1.inbound ≡ c.inbound
  unfolding take_opened deliver_decoded deliver_frame
  take_opened_inbound (Opened.fails e, opener) c = refl
  take_opened_inbound (Opened.opens bytes, opener) c =
      decoded_inbound (decode_frame bytes) (record c { opener = some opener })
    where
      decoded_inbound :
          (o : Option ChannelFrame) (c' : SecureChannel)
          → (deliver_decoded p on o c').1.inbound ≡ c'.inbound
      decoded_inbound none c' = refl
      decoded_inbound (some frame) c' = perform_inbound p (on.on_frame frame) _

  -- What a round leaves of a well-formed queue is well-formed, and if the round has handled a record, it is at least
  -- four bytes shorter.
  abbrev pub Shorter : ByteQueue → Round × SecureChannel → Type 0
  Shorter q r =
      IsValid r.1.inbound
      × (r.0 ≡ handled → r.1.inbound.byte_length + length_prefix_bytes ≤ q.byte_length)

  pub taken :
      (q : ByteQueue) (n : ℕ)
      → IsValid q
      → n ≤ q.byte_length
      → IsValid (take_bytes n q).1 × ((take_bytes n q).1.byte_length + n ≡ q.byte_length)
  taken q n v h =
      let (out, rest, valid) = content-take_bytes n q v h in
      let before = v.counted in
      let after = valid.counted in
      let left = ap length rest in (valid, omega (arith, length-drop n (content q)))

  pub round_with-Shorter :
      (o : Option Opener) (c : SecureChannel)
      → IsValid c.inbound
      → Shorter c.inbound (round_with p on o c)
  unfolding round_with
  round_with-Shorter none c v = (v, λ q. absurd (cc))
  round_with-Shorter (some opener) c v =
      let P = Shorter c.inbound in
      let size = peek_uint32_be c.inbound in
      let behind = (take_bytes length_prefix_bytes c.inbound).1 in
      if_elim P (ltb c.inbound.byte_length length_prefix_bytes) _ _ (λ _. (v, λ q. absurd (cc)))
        (λ _.
          if_elim P (ltb max_record_bytes size) _ _ (λ _. (v, λ q. absurd (cc)))
            (λ _.
              if_elim P (ltb c.inbound.byte_length (length_prefix_bytes + size)) _ _
                (λ _. (v, λ q. absurd (cc)))
                (λ t.
                  let there : length_prefix_bytes + size ≤ c.inbound.byte_length = ground arith in
                  let (valid, first) = taken c.inbound length_prefix_bytes v (omega arith) in
                  let (valid', second) = taken behind size valid (omega arith) in
                  let same =
                    take_opened_inbound (open_record p opener (take_bytes size behind).0)
                      (record c { inbound = (take_bytes size behind).1 }) in
                  (
                    subst IsValid (sym same) valid',
                    λ q. let counted = ap (λ (x : ByteQueue). x.byte_length) same in omega arith,
                  ))))

  after_round_enough :
      (fuel k : ℕ) (q : ByteQueue) (r : Round × SecureChannel)
      → ((c : SecureChannel)
          → IsValid c.inbound
          → c.inbound.byte_length < fuel
          → drain_loop p on (fuel + k) c ≡ drain_loop p on fuel c)
      → Shorter q r
      → q.byte_length < suc fuel
      → after_round r (drain_loop p on (fuel + k)) ≡ after_round r (drain_loop p on fuel)
  unfolding after_round
  after_round_enough fuel k q (waits, c) same (v, shorter) h = refl
  after_round_enough fuel k q (handled, c) same (v, shorter) h =
      let less = shorter refl in same c v (omega arith)
  after_round_enough fuel k q (throws e, c) same (v, shorter) h = refl

  -- More rounds than there are bytes change nothing: on a well-formed queue the loop has ended before its fuel
  -- has.
  pub drain_loop_enough :
      (fuel k : ℕ) (c : SecureChannel)
      → IsValid c.inbound
      → c.inbound.byte_length < fuel
      → drain_loop p on (fuel + k) c ≡ drain_loop p on fuel c
  unfolding drain_loop
  drain_loop_enough zero k c v h = absurd (omega arith)
  drain_loop_enough (suc fuel) k c v h =
      let e : suc fuel + k ≡ suc (fuel + k) = omega arith in
      ap (λ n. drain_loop p on n c) e
      ∙ after_round_enough fuel k c.inbound (round_with p on c.opener c) (drain_loop_enough fuel k)
          (round_with-Shorter c.opener c v) h
