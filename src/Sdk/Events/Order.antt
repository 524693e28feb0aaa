-- ===== src/Sdk/Events/Order.antt =====
-- packages/sdk/src/events.ts: the iterator gives each event that the listeners heard once, in their order.
use pherry.Base.{
  ℕ, ◌≡◌, ◌⊎◌, inl, inr, refl, sym, ap, subst, some_inj, ◌∙◌, Bool, true, List, [], ◌∷◌, ◌++◌,
  Option, none, some, ◌==◌, if◌then◌else◌, if_elim, append_assoc, append-nil,
}
use pherry.Protocol.PtyFrame.{PtyFrame}
use pherry.Protocol.PtyPayloads.{ℤ, PtyOpcode, code, Size, decode_size_payload, decode_exit_payload}
use pherry.Sdk.Events.{
  PtyEvent, output, gap, PendingSnapshot, PtyEventStream, Answer, value, done, failed, hand_on,
  push, end_, fail, answer_all, add_chunk, finish, start, resized, finished, ingest, pull_from,
  next, new_stream,
}
use pherry.Sdk.Events.Settled.{
  values, pulls, values-append, values_done, values_failed, pulls-append, settled_all, settled_one,
  settled_nothing,
}

-- What pulls were answered with, and what is queued, is what was heard. A pull waits only for an empty
-- queue, and not on a closed stream. The pulls that were answered, and those that wait, are those that
-- were made.
pub record InOrder (made : List ℕ) (s : PtyEventStream) : Type 0 where
  pub all_heard : values s.settled ++ s.queue ≡ s.heard
  pub waits : (s.queue ≡ []) ⊎ (s.pullers ≡ [])
  pub turns : pulls s.settled ++ s.pullers ≡ made
  pub none_left : s.closed ≡ true → s.pullers ≡ []
  pub failed_closed : s.error ≡ true → s.closed ≡ true

module _ (made : List ℕ) where
  hand_on-InOrder :
      (e : PtyEvent) (pullers : List ℕ) (s : PtyEventStream)
      → s.pullers ≡ pullers
      → InOrder made s
      → InOrder made (hand_on e pullers (record s { heard = s.heard ++ e ∷ [] }))
  unfolding hand_on values pulls
  hand_on-InOrder e [] s q h = record {
    all_heard =
        sym (append_assoc (values s.settled) s.queue (e ∷ [])) ∙ ap (λ v. v ++ e ∷ []) h.all_heard;
    waits = inr q;
    turns = h.turns;
    none_left = λ _. q;
    failed_closed = h.failed_closed;
  }
  hand_on-InOrder e (pull ∷ pullers) s q h =
      let empty : s.queue ≡ [] = elim h.waits [ inl p ↦ p | inr p ↦ absurd (cc) ] in
      record {
        all_heard =
            ap (λ v. values (s.settled ++ (pull, value e) ∷ []) ++ v) empty
            ∙ append-nil (values (s.settled ++ (pull, value e) ∷ []))
            ∙ values-append s.settled ((pull, value e) ∷ [])
            ∙ ap (λ v. v ++ e ∷ [])
                (sym (append-nil (values s.settled))
                  ∙ ap (λ v. values s.settled ++ v) (sym empty)
                  ∙ h.all_heard);
        waits = inl empty;
        turns =
            ap (λ ps. ps ++ pullers) (pulls-append s.settled ((pull, value e) ∷ []))
            ∙ append_assoc (pulls s.settled) (pull ∷ []) pullers
            ∙ ap (λ ps. pulls s.settled ++ ps) (sym q)
            ∙ h.turns;
        none_left = λ shut. absurd (cc (h.none_left shut));
        failed_closed = h.failed_closed;
      }

  push-InOrder : (e : PtyEvent) (s : PtyEventStream) → InOrder made s → InOrder made (push e s)
  unfolding push
  push-InOrder e s h =
      if_elim (InOrder made) s.closed s _ (λ _. h) (λ _. hand_on-InOrder e s.pullers s refl h)

  end-InOrder : (s : PtyEventStream) → InOrder made s → InOrder made (end_ s)
  unfolding end_
  end-InOrder s h =
      if_elim (InOrder made) s.closed s _ (λ _. h)
        (λ _. record {
          all_heard =
              settled_nothing s.settled (answer_all done s.pullers) s.queue s.heard
                (values_done s.pullers) h.all_heard;
          waits = inr refl;
          turns = settled_all done s ∙ h.turns;
          none_left = λ _. refl;
          failed_closed = λ _. refl;
        })

  fail-InOrder : (s : PtyEventStream) → InOrder made s → InOrder made (fail s)
  unfolding fail
  fail-InOrder s h =
      if_elim (InOrder made) s.closed s _ (λ _. h)
        (λ _. record {
          all_heard =
              settled_nothing s.settled (answer_all failed s.pullers) s.queue s.heard
                (values_failed s.pullers) h.all_heard;
          waits = inr refl;
          turns = settled_all failed s ∙ h.turns;
          none_left = λ _. refl;
          failed_closed = λ _. refl;
        })

  -- Where only what is pending differs, the order is the same.
  pending-InOrder :
      (p : Option PendingSnapshot) (s : PtyEventStream)
      → InOrder made s
      → InOrder made (record s { pending = p })
  pending-InOrder p s h = record {
    all_heard = h.all_heard;
    waits = h.waits;
    turns = h.turns;
    none_left = h.none_left;
    failed_closed = h.failed_closed;
  }

  -- Of the streams that an operation may leave, where it does not throw.
  record Kept (left : Option PtyEventStream) : Type 0 where
    order : (s : PtyEventStream) → left ≡ some s → InOrder made s

  some-Kept : (s : PtyEventStream) → InOrder made s → Kept (some s)
  some-Kept s h = record { order = λ s' e. subst (InOrder made) (some_inj e) h }

  none-Kept : Kept none
  none-Kept = record { order = λ s e. absurd (cc) }

  add_chunk-InOrder :
      (payload : List ℕ) (p : Option PendingSnapshot) (s : PtyEventStream)
      → InOrder made s
      → InOrder made (add_chunk payload p s)
  unfolding add_chunk
  add_chunk-InOrder payload none s h = h
  add_chunk-InOrder payload (some snap) s h =
      let h' = pending-InOrder _ s h in
      if_elim (InOrder made) _ _ _ (λ _. fail-InOrder _ h') (λ _. h')

  finish-InOrder :
      (p : Option PendingSnapshot) (s : PtyEventStream) → InOrder made s → InOrder made (finish p s)
  unfolding finish
  finish-InOrder none s h = pending-InOrder none s h
  finish-InOrder (some snap) s h = push-InOrder _ _ (pending-InOrder none s h)

  start-Kept :
      (seq : ℕ) (o : Option Size) (s : PtyEventStream) → InOrder made s → Kept (start seq o s)
  unfolding start
  start-Kept seq none s h = none-Kept
  start-Kept seq (some size) s h = some-Kept _ (pending-InOrder _ s h)

  resized-Kept :
      (seq : ℕ) (o : Option Size) (s : PtyEventStream) → InOrder made s → Kept (resized seq o s)
  unfolding resized
  resized-Kept seq none s h = none-Kept
  resized-Kept seq (some size) s h = some-Kept _ (push-InOrder _ s h)

  finished-Kept :
      (seq : ℕ) (o : Option (Option ℤ)) (s : PtyEventStream)
      → InOrder made s
      → Kept (finished seq o s)
  unfolding finished
  finished-Kept seq none s h = none-Kept
  finished-Kept seq (some exit) s h = some-Kept _ (end-InOrder _ (push-InOrder _ s h))

  if-Kept : (b : Bool) (x y : Option PtyEventStream) → Kept x → Kept y → Kept (if b then x else y)
  if-Kept b x y hx hy = if_elim Kept b x y (λ _. hx) (λ _. hy)

  ingest-Kept : (f : PtyFrame) (s : PtyEventStream) → InOrder made s → Kept (ingest f s)
  unfolding ingest
  ingest-Kept f s h =
      if-Kept (f.opcode == code PtyOpcode.snapshot_start) _ _
        (start-Kept f.seq (decode_size_payload f.payload) s h)
        (if-Kept (f.opcode == code PtyOpcode.snapshot_chunk) _ _
          (some-Kept _ (add_chunk-InOrder f.payload s.pending s h))
          (if-Kept (f.opcode == code PtyOpcode.snapshot_end) _ _
            (some-Kept _ (finish-InOrder s.pending s h))
            (if-Kept (f.opcode == code PtyOpcode.output) _ _
              (some-Kept _ (push-InOrder (output f.seq f.payload) s h))
              (if-Kept (f.opcode == code PtyOpcode.resized) _ _
                (resized-Kept f.seq (decode_size_payload f.payload) s h)
                (if-Kept (f.opcode == code PtyOpcode.ended) _ _
                  (finished-Kept f.seq (decode_exit_payload f.payload) s h)
                  (if-Kept (f.opcode == code PtyOpcode.gap) _ _
                    (some-Kept _ (push-InOrder (gap f.seq) s h)) (some-Kept s h)))))))

-- An answer without an event, to a pull when none wait.
refused-InOrder :
    (made : List ℕ) (pull : ℕ) (a : Answer) (s : PtyEventStream)
    → values ((pull, a) ∷ []) ≡ []
    → s.pullers ≡ []
    → InOrder made s
    → InOrder (made ++ pull ∷ []) (record s { settled = s.settled ++ (pull, a) ∷ [] })
refused-InOrder made pull a s nothing alone h = record {
  all_heard = settled_nothing s.settled ((pull, a) ∷ []) s.queue s.heard nothing h.all_heard;
  waits = h.waits;
  turns = settled_one pull a made s alone h.turns;
  none_left = h.none_left;
  failed_closed = h.failed_closed;
}

pull_from-InOrder :
    (made : List ℕ) (pull : ℕ) (queue : List PtyEvent) (s : PtyEventStream)
    → s.queue ≡ queue
    → InOrder made s
    → InOrder (made ++ pull ∷ []) (pull_from pull queue s)
unfolding pull_from values
pull_from-InOrder made pull (queued ∷ queue) s q h =
    let alone : s.pullers ≡ [] = elim h.waits [ inl p ↦ absurd (cc) | inr p ↦ p ] in
    record {
      all_heard =
          ap (λ v. v ++ queue) (values-append s.settled ((pull, value queued) ∷ []))
          ∙ append_assoc (values s.settled) (queued ∷ []) queue
          ∙ ap (λ v. values s.settled ++ v) (sym q)
          ∙ h.all_heard;
      waits = inr alone;
      turns = settled_one pull (value queued) made s alone h.turns;
      none_left = h.none_left;
      failed_closed = h.failed_closed;
    }
pull_from-InOrder made pull [] s q h =
    let P = InOrder (made ++ pull ∷ []) in
    if_elim P s.error _ _
      (λ e. refused-InOrder made pull failed s refl (h.none_left (h.failed_closed e)) h)
      (λ e.
        if_elim P s.closed _ _ (λ shut. refused-InOrder made pull done s refl (h.none_left shut) h)
          (λ open_. record {
            all_heard = h.all_heard;
            waits = inl q;
            turns =
                sym (append_assoc (pulls s.settled) s.pullers (pull ∷ []))
                ∙ ap (λ ps. ps ++ pull ∷ []) h.turns;
            none_left = λ shut. absurd (cc);
            failed_closed = h.failed_closed;
          }))

-- What a subscription does with its stream.
pub data Use : Type 0 where
  frame : PtyFrame → Use
  pulled : ℕ → Use
  stopped : Use

-- A stream that an `ingest` throws on stays as it is.
abbrev or_same : PtyEventStream → Option PtyEventStream → PtyEventStream
or_same s none = s
or_same s (some s') = s'

abbrev pub run : List Use → PtyEventStream → PtyEventStream
run [] s = s
run (frame f ∷ uses) s = run uses (or_same s (ingest f s))
run (pulled pull ∷ uses) s = run uses (next pull s)
run (stopped ∷ uses) s = run uses (end_ s)

-- The pulls of a list of uses.
abbrev pub made_by : List Use → List ℕ
made_by [] = []
made_by (frame f ∷ uses) = made_by uses
made_by (pulled pull ∷ uses) = pull ∷ made_by uses
made_by (stopped ∷ uses) = made_by uses

or_same-InOrder :
    (made : List ℕ) (o : Option PtyEventStream) (s : PtyEventStream)
    → InOrder made s
    → Kept made o
    → InOrder made (or_same s o)
or_same-InOrder made none s h k = h
or_same-InOrder made (some s') s h k = k.order s' refl

run-InOrder :
    (uses : List Use) (made : List ℕ) (s : PtyEventStream)
    → InOrder made s
    → InOrder (made ++ made_by uses) (run uses s)
unfolding next
run-InOrder [] made s h = subst (λ ps. InOrder ps s) (sym (append-nil made)) h
run-InOrder (frame f ∷ uses) made s h =
    run-InOrder uses made (or_same s (ingest f s))
      (or_same-InOrder made (ingest f s) s h (ingest-Kept made f s h))
run-InOrder (pulled pull ∷ uses) made s h =
    subst (λ ps. InOrder ps (run uses (next pull s))) (append_assoc made (pull ∷ []) (made_by uses))
      (run-InOrder uses (made ++ pull ∷ []) (next pull s)
        (pull_from-InOrder made pull s.queue s refl h))
run-InOrder (stopped ∷ uses) made s h = run-InOrder uses made (end_ s) (end-InOrder made s h)

-- However frames, pulls and ends follow one another: the pulls that were answered, and then those that
-- wait, are the pulls in the order in which they were made; and the events that they were answered
-- with, and then those that are queued, are the events that the listeners heard, in their order.
pub values-run :
    (uses : List Use)
    → (pulls (run uses new_stream).settled ++ (run uses new_stream).pullers ≡ made_by uses)
      × (values (run uses new_stream).settled ++ (run uses new_stream).queue
          ≡ (run uses new_stream).heard)
unfolding values pulls
values-run uses =
    let order = run-InOrder uses [] new_stream (record {
      all_heard = refl;
      waits = inl refl;
      turns = refl;
      none_left = λ _. refl;
      failed_closed = λ e. absurd (cc);
    }) in
    (order.turns, order.all_heard)
