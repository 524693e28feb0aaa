-- ===== src/Channel/SecureChannel/Sound/Keeps.antt =====
-- packages/channel/src/channel.ts: every call, every callback and every byte keeps a channel sound.
use pherry.Base.{
  ℕ, suc, ◌+◌, ◌^◌, ◌≤◌, ◌≡◌, refl, sym, ap, subst, true, false, not, ◌&&◌, List, [], ◌∷◌, Option,
  none, some, ltb, leb, length, if_elim, some_inj, arith,
}
use pherry.Channel.Frame.{ChannelFrame, encode_frame}
use pherry.Channel.Record.{Primitives, Sealer, seal}
use pherry.Channel.SecureChannel.{
  ChannelError, Action, sends, closes, Handshake, SecureChannel, is_initiator, start_with, shutdown,
  and_then, emit, send_sealed, send_with, send, close, perform, max_record_bytes,
  record_overhead_bytes,
}
use pherry.Channel.SecureChannel.Sound.{Sound}

pub shutdown-Sound : (e : Option ChannelError) (c : SecureChannel) → Sound c → Sound (shutdown e c)
unfolding shutdown
shutdown-Sound e c h =
    if_elim Sound c.closed c _ (λ _. h)
      (λ _. record {
        gated = λ s q. absurd (cc);
        quiet = h.quiet;
        gone = λ _. (refl, refl, refl, refl);
      })

pub start_with-Sound : (o : Option Handshake) (c : SecureChannel) → Sound c → Sound (start_with o c)
unfolding start_with
start_with-Sound none c h = h
start_with-Sound (some handshake) c h =
    if_elim Sound (is_initiator c.role && not c.closed) _ c
      (λ _. record { gated = h.gated; quiet = h.quiet; gone = h.gone }) (λ _. h)

pub and_then-Sound :
    (r : Option ChannelError × SecureChannel)
    (f : SecureChannel → Option ChannelError × SecureChannel)
    → Sound r.1
    → ((c : SecureChannel) → Sound c → Sound (f c).1)
    → Sound (and_then r f).1
unfolding and_then
and_then-Sound (none, c) f h step = step c h
and_then-Sound (some e, c) f h step = h

module _ (p : Primitives) where
  counter-seal :
      (s s' : Sealer) (plain bytes : List ℕ)
      → seal p s plain ≡ some (bytes, s')
      → s'.counter ≡ suc s.counter
  unfolding seal
  counter-seal s s' plain bytes e =
      if_elim (λ o. o ≡ some (bytes, s') → s'.counter ≡ suc s.counter) (ltb s.counter (2 ^ 53)) _ _
        (λ _ q. ap (λ (r : List ℕ × Sealer). r.1.counter) (sym (some_inj q))) (λ _ q. absurd (cc)) e

  emit-Sound :
      (o : Option (List ℕ × Sealer)) (c : SecureChannel)
      → c.closed ≡ false
      → ((bytes : List ℕ) (s : Sealer)
          → o ≡ some (bytes, s)
          → is_initiator c.role ≡ true
          → c.authenticated ≡ false
          → s.counter ≤ 1)
      → Sound c
      → Sound (emit p o c).1
  unfolding emit
  emit-Sound none c live gate h = h
  emit-Sound (some (bytes, sealer)) c live gate h = record {
    gated =
        λ s q i a. subst (λ (x : Sealer). x.counter ≤ 1) (some_inj q) (gate bytes sealer refl i a);
    quiet = h.quiet;
    gone = λ q. absurd (cc);
  }

  -- An initiator that is not authenticated seals only its first record.
  send_sealed-Sound :
      (frame : ChannelFrame) (s : Sealer) (c : SecureChannel)
      → c.closed ≡ false
      → Sound c
      → Sound (send_sealed p frame s c).1
  unfolding send_sealed
  send_sealed-Sound frame s c live h =
      let P : Option ChannelError × SecureChannel → Type 0 = λ r. Sound r.1 in
      if_elim P (is_initiator c.role && (not c.authenticated && leb 1 s.counter)) _ _ (λ _. h)
        (λ t.
          if_elim P (ltb max_record_bytes (record_overhead_bytes + length frame.payload)) _ _
            (λ _. h)
            (λ _.
              emit-Sound (seal p s (encode_frame frame)) c live
                (λ bytes s' e i a.
                  let next = counter-seal s s' (encode_frame frame) bytes e in ground arith)
                h))

  send_with-Sound :
      (frame : ChannelFrame) (o : Option Sealer) (c : SecureChannel)
      → c.closed ≡ false
      → Sound c
      → Sound (send_with p frame o c).1
  unfolding send_with
  send_with-Sound frame none c live h = h
  send_with-Sound frame (some s) c live h =
      if_elim (λ (r : Option ChannelError × SecureChannel). Sound r.1) (not c.opened) _ _ (λ _. h)
        (λ _. send_sealed-Sound frame s c live h)

  pub send-Sound : (frame : ChannelFrame) (c : SecureChannel) → Sound c → Sound (send p frame c).1
  unfolding send
  send-Sound frame c h =
      if_elim (λ (r : Option ChannelError × SecureChannel). Sound r.1) c.closed _ _ (λ _. h)
        (λ live. send_with-Sound frame c.sealer c live h)

  pub perform-Sound :
      (actions : List Action) (c : SecureChannel) → Sound c → Sound (perform p actions c).1
  unfolding perform close
  perform-Sound [] c h = h
  perform-Sound (closes ∷ actions) c h =
      perform-Sound actions (shutdown none c) (shutdown-Sound none c h)
  perform-Sound (sends frame ∷ actions) c h =
      and_then-Sound (send p frame c) (perform p actions) (send-Sound frame c h)
        (perform-Sound actions)
