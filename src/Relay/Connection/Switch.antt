-- ===== src/Relay/Connection/Switch.antt =====
-- The switch of `OuterConnection` (packages/relay-core/src/outer-frame.ts) to the raw phase, as
-- packages/relay-core/src/data-connection.ts makes it on `data-ready`: no byte behind the frame is
-- lost or moved.
use pherry.Base.{
  Option, none, ℕ, zero, suc, ◌+◌, ◌≤◌, ◌≡◌, refl, sym, ap, subst, ◌∙◌, Bool, true, false, List, [],
  ◌∷◌, ◌++◌, length, flatten, arith, dec_lt, flatten-append, length-append, append-nil,
  append_assoc, All, inl, inr, ◌⊎◌,
}
use pherry.Base.Words.{IsByte}
use pherry.Relay.OuterFrame.{push, drain_remaining}
use pherry.Relay.OuterFrame.Reader.{content, IsValid, drain_remaining-content}
use pherry.Relay.OuterFrame.Framing.{frame, Fits, next-frame, IsIncomplete}
use pherry.Relay.Connection.{
  OuterConnection, ConnectionError, receive_round, receive_loop, receive, receive_all, deliver_raw,
  to_raw, max_prehandler_raw_bytes,
}
use pherry.Relay.Connection.Framed.{
  split_append, cut_frame-IsIncomplete, Expects, push-Expects, frame_complete, loop_stop,
  round-some, receive_open, loop_go,
}

-- The connection is raw and has passed on, or holds for the coming handler, the bytes `got`. With no
-- handler yet, what it holds and what is still to come stay within the cap.
pub record Passes (c : OuterConnection) (got future : List ℕ) : Type 0 where
  pub raw : c.raw ≡ true
  pub alive : c.closed ≡ false
  pub passed : flatten c.delivered ++ flatten c.raw_buffer ≡ got
  pub room :
      ((c.raw_handler ≡ true) × (c.raw_buffer ≡ []))
      ⊎ ((c.raw_handler ≡ false) × (c.raw_buffer_bytes + length future ≤ max_prehandler_raw_bytes))

flatten_snoc : (l : List (List ℕ)) (x : List ℕ) → flatten (l ++ x ∷ []) ≡ flatten l ++ x
flatten_snoc l x = flatten-append l (x ∷ []) ∙ ap (λ (t : List ℕ). flatten l ++ t) (append-nil x)

passed_direct :
    (d b : List (List ℕ)) (chunk got : List ℕ)
    → b ≡ []
    → flatten d ++ flatten b ≡ got
    → flatten (d ++ chunk ∷ []) ++ flatten b ≡ got ++ chunk
passed_direct d b chunk got e h =
    rw (← h, e, flatten_snoc d chunk, append-nil (flatten d)) (append-nil (flatten d ++ chunk))

passed_queued :
    (d b : List (List ℕ)) (chunk got : List ℕ)
    → flatten d ++ flatten b ≡ got
    → flatten d ++ flatten (b ++ chunk ∷ []) ≡ got ++ chunk
passed_queued d b chunk got h =
    rw (← h, flatten_snoc b chunk) (sym (append_assoc (flatten d) (flatten b) chunk))

module _ (on_error : ConnectionError → OuterConnection → OuterConnection) where
  deliver_raw_handler :
      (c : OuterConnection) (chunk : List ℕ)
      → c.raw_handler ≡ true
      → deliver_raw on_error chunk c ≡ record c { delivered = c.delivered ++ chunk ∷ [] }
  unfolding deliver_raw
  deliver_raw_handler c chunk h = simp h

  deliver_raw_early :
      (c : OuterConnection) (chunk : List ℕ)
      → c.raw_handler ≡ false
      → c.raw_buffer_bytes + length chunk ≤ max_prehandler_raw_bytes
      → deliver_raw on_error chunk c ≡ record c {
        raw_buffer = c.raw_buffer ++ chunk ∷ [];
        raw_buffer_bytes = c.raw_buffer_bytes + length chunk;
      }
  unfolding deliver_raw
  deliver_raw_early c chunk h fits = simp h (ground arith)

  -- A raw chunk goes behind what was passed on before.
  deliver_raw-Passes :
      (c : OuterConnection) (got chunk future : List ℕ)
      → Passes c got (chunk ++ future)
      → Passes (deliver_raw on_error chunk c) (got ++ chunk) future
  deliver_raw-Passes c got chunk future p = go p.room
    where
      go :
          ((c.raw_handler ≡ true) × (c.raw_buffer ≡ []))
            ⊎ ((c.raw_handler ≡ false)
                × (c.raw_buffer_bytes + length (chunk ++ future) ≤ max_prehandler_raw_bytes))
          → Passes (deliver_raw on_error chunk c) (got ++ chunk) future
      go (inl (h, e)) = rw (deliver_raw_handler c chunk h) (record {
        raw = p.raw;
        alive = p.alive;
        passed = passed_direct c.delivered c.raw_buffer chunk got e p.passed;
        room = inl (h, e);
      })
      go (inr (h, fits)) =
          let b : c.raw_buffer_bytes + length chunk + length future ≤ max_prehandler_raw_bytes =
            omega (arith, length-append chunk future) in
          rw (deliver_raw_early c chunk h (omega arith)) (record {
            raw = p.raw;
            alive = p.alive;
            passed = passed_queued c.delivered c.raw_buffer chunk got p.passed;
            room = inr (h, b);
          })

  to_raw_empty :
      (c : OuterConnection)
      → c.raw ≡ false
      → (drain_remaining c.reader).0 ≡ []
      → to_raw on_error c ≡ record c { raw = true; reader = (drain_remaining c.reader).1 }
  unfolding to_raw
  to_raw_empty c framed e = simp (framed, e)

  to_raw_leftover :
      (c : OuterConnection) (b : ℕ) (bytes : List ℕ)
      → c.raw ≡ false
      → (drain_remaining c.reader).0 ≡ b ∷ bytes
      → to_raw on_error c
        ≡ deliver_raw on_error
            (b ∷ bytes)
            (record c { raw = true; reader = (drain_remaining c.reader).1 })
  unfolding to_raw
  to_raw_leftover c b bytes framed e = simp (framed, e) (ground arith)

  -- Entering the raw phase passes on what the reader had buffered.
  to_raw-Passes :
      (c : OuterConnection) (got buffered future : List ℕ)
      → IsValid c.reader
      → c.raw ≡ false
      → content c.reader ≡ buffered
      → Passes (record c { raw = true }) got (buffered ++ future)
      → Passes (to_raw on_error c) (got ++ buffered) future
  to_raw-Passes c got [] future v framed e p =
      rw (to_raw_empty c framed ((drain_remaining-content c.reader v).0 ∙ e), append-nil got)
        (record { raw = refl; alive = p.alive; passed = p.passed; room = p.room })
  to_raw-Passes c got (b ∷ bytes) future v framed e p =
      rw (to_raw_leftover c b bytes framed ((drain_remaining-content c.reader v).0 ∙ e)) (
        deliver_raw-Passes _ got (b ∷ bytes) future
          (record { raw = refl; alive = p.alive; passed = p.passed; room = p.room }))

  module _ (decodes : List ℕ → Bool)
      (on_message : List ℕ → OuterConnection → OuterConnection × Option ℕ) (ready : List ℕ)
      (fits : Fits ready) (decoded : decodes ready ≡ true)
      (switches : (c : OuterConnection) → on_message ready c ≡ (to_raw on_error c, none)) where
    abbrev loop : ℕ → OuterConnection → OuterConnection
    loop = receive_loop decodes on_message on_error

    -- The frame of `ready` is read, and `rest` of the raw bytes behind it.
    abbrev Switched : OuterConnection → List ℕ → List ℕ → List ℕ → Type 0
    Switched c got future bytes =
        (rest : List ℕ) × (rest ++ future ≡ bytes) × Passes c (got ++ rest) future

    -- The frame of `ready` is not whole yet.
    abbrev Awaits : OuterConnection → List ℕ → List ℕ → List ℕ → Type 0
    Awaits c got future bytes =
        Expects c future (ready ∷ []) bytes
        × Passes (record c { raw = true }) got bytes
        × IsIncomplete (content c.reader)

    raw_loop : (fuel : ℕ) (c : OuterConnection) → c.raw ≡ true → loop fuel c ≡ c
    unfolding receive_loop
    raw_loop zero c h = refl
    raw_loop (suc fuel) c h = simp h

    -- The loop on a whole frame of `ready` ends in the raw phase.
    loop_switch :
        (fuel : ℕ) (c : OuterConnection) (got future bytes : List ℕ)
        → Expects c future (ready ∷ []) bytes
        → Passes (record c { raw = true }) got bytes
        → 4 + length ready ≤ length (content c.reader)
        → Switched (loop (suc fuel) c) got future bytes
    loop_switch fuel c got future bytes x p whole =
        let (rest, front, back) =
          split_append (frame ready) (content c.reader) future bytes
            (x.stream ∙ append_assoc (frame ready) [] bytes) (omega arith) in
        let (reader, e, left, valid) = next-frame c.reader ready rest x.valid fits front in
        let c' : OuterConnection = record c {
          reader = reader;
          payloads = c.payloads ++ ready ∷ [];
        } in
        let passes : Passes (to_raw on_error c') (got ++ rest) future =
          to_raw-Passes c' got rest future valid x.framed left
            (rw back (record { raw = refl; alive = p.alive; passed = p.passed; room = p.room })) in
        let step =
          round-some decodes on_message on_error c ready reader e decoded
            (ap (λ r. r.1) (switches c')) in
        let round_raw : receive_round decodes on_message on_error c ≡ (to_raw on_error c', true) =
          step ∙ ap (λ (r : OuterConnection × Option ℕ). (r.0, true)) (switches c') in
        (
          rest,
          back,
          rw
              (
                loop_go decodes on_message on_error fuel c x.framed (ap (λ r. r.1) round_raw),
                round_raw,
                raw_loop fuel (to_raw on_error c') passes.raw,
              )
              passes,
        )

    receive_awaiting :
        (c : OuterConnection) (got chunk future bytes : List ℕ)
        → All IsByte chunk
        → Awaits c got (chunk ++ future) bytes
        → let c' = receive decodes on_message on_error chunk c in
          Awaits c' got future bytes ⊎ Switched c' got future bytes
    receive_awaiting c got chunk future bytes b (x, p, _) =
        let c' : OuterConnection = record c { reader = push c.reader chunk } in
        let x' = push-Expects c chunk future (ready ∷ []) bytes b x in
        let p' : Passes (record c' { raw = true }) got bytes = record {
          raw = refl;
          alive = p.alive;
          passed = p.passed;
          room = p.room;
        } in
        rw (receive_open decodes on_message on_error c chunk x.alive x.framed)
          (elim (dec_lt (length (content c'.reader)) (4 + length ready)) [
            | yes short ↦
                let part : IsIncomplete (content c'.reader) =
                  cut_frame-IsIncomplete (content c'.reader) future ready bytes
                    (x'.stream ∙ append_assoc (frame ready) [] bytes) fits short in
                rw
                  (loop_stop decodes on_message on_error (push c.reader chunk).buffered c' x'.valid
                    x.framed part)
                  (inl (x', p', part))
            | no whole ↦
                inr (
                  loop_switch (push c.reader chunk).buffered c' got future bytes x' p'
                    (omega arith))
          ])

    receive_raw :
        (c : OuterConnection) (chunk : List ℕ)
        → c.closed ≡ false
        → c.raw ≡ true
        → receive decodes on_message on_error chunk c ≡ deliver_raw on_error chunk c
    unfolding receive
    receive_raw c chunk alive raw = simp (alive, raw)

    receive_all_raw :
        (chunks : List (List ℕ)) (c : OuterConnection) (got : List ℕ)
        → Passes c got (flatten chunks)
        → Passes (receive_all decodes on_message on_error chunks c) (got ++ flatten chunks) []
    unfolding receive_all
    receive_all_raw [] c got p = rw (append-nil got) p
    receive_all_raw (chunk ∷ chunks) c got p =
        rw (receive_raw c chunk p.alive p.raw, ← append_assoc got chunk (flatten chunks))
          (receive_all_raw chunks _ (got ++ chunk)
            (deliver_raw-Passes c got chunk (flatten chunks) p))

    receive_all_awaiting :
        (chunks : List (List ℕ)) (c : OuterConnection) (got bytes : List ℕ)
        → All (All IsByte) chunks
        → Awaits c got (flatten chunks) bytes
        → Passes (receive_all decodes on_message on_error chunks c) (got ++ bytes) []
    unfolding receive_all
    receive_all_awaiting [] c got bytes b (x, p, part) = absurd (
        frame_complete ready bytes fits (
          subst IsIncomplete (sym (append-nil _) ∙ x.stream ∙ append_assoc (frame ready) [] bytes)
            part))
    receive_all_awaiting (chunk ∷ chunks) c got bytes b w =
        elim (receive_awaiting c got chunk (flatten chunks) bytes b.0 w) [
          | inl waits ↦ receive_all_awaiting chunks _ got bytes b.1 waits
          | inr (rest, back, p) ↦
              subst
                (λ l.
                  Passes
                    (receive_all decodes on_message on_error chunks
                      (receive decodes on_message on_error chunk c))
                    l [])
                (append_assoc got rest (flatten chunks) ∙ ap (λ (l : List ℕ). got ++ l) back)
                (receive_all_raw chunks _ (got ++ rest) p)
        ]

    -- However the frame of `ready` and the raw bytes behind it are cut into chunks, the connection
    -- ends in the raw phase and open, and has passed on, or holds for the raw handler, exactly the
    -- raw bytes in order, behind what it had before. With no raw handler registered, the bytes must
    -- fit the cap on early raw bytes.
    pub receive_all_switch :
        (c : OuterConnection) (chunks : List (List ℕ)) (got bytes : List ℕ)
        → IsValid c.reader
        → content c.reader ≡ []
        → c.raw ≡ false
        → All (All IsByte) chunks
        → Passes (record c { raw = true }) got bytes
        → flatten chunks ≡ frame ready ++ bytes
        → let c' = receive_all decodes on_message on_error chunks c in
          (c'.raw ≡ true)
          × (c'.closed ≡ false)
          × (flatten c'.delivered ++ flatten c'.raw_buffer ≡ got ++ bytes)
    receive_all_switch c chunks got bytes valid fresh framed b p stream =
        let x : Expects c (flatten chunks) (ready ∷ []) bytes = record {
          valid = valid;
          framed = framed;
          alive = p.alive;
          stream = rw fresh (stream ∙ sym (append_assoc (frame ready) [] bytes));
        } in
        let all = receive_all_awaiting chunks c got bytes b (x, p, rw fresh (inl (omega arith))) in
        (all.raw, all.alive, all.passed)
