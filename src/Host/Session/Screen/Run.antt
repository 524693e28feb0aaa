-- ===== src/Host/Session/Screen/Run.antt =====
-- packages/host/src/session/session.ts: every sequence of events keeps the viewers in step.
use pherry.Base.{
  ℕ, suc, ◌≡◌, refl, ap, ◌∙◌, Bool, not, ◌||◌, List, [], ◌∷◌, Option, none, ◌==◌, if◌then◌else◌,
  All, All-map, All-append, if_elim, arith,
}
use pherry.Base.Maps.{AllValues-insert}
use pherry.Host.Ring.{ByteRing}
use pherry.Host.Session.{
  Session, Subscriber, Viewport, Mirror, frame, new_session, emit_snapshot, broadcast, subscribe,
  unsubscribe,
}
use pherry.Host.Session.Control.{
  write, observe_viewer, resize_viewer, dispose, on_exit, resume_subscriber, resumed,
}
use pherry.Host.Session.Viewer.{Repaints, follow, replay, replay-append, replay-emit_snapshot}
use pherry.Protocol.PtyPayloads.{ℤ, encode_exit_payload, PtyOpcode, Size, Fits}
use pherry.Host.Session.Events.{Event, Sized, perform, run}
use pherry.Host.Session.Screen.{Current, Synced}
use pherry.Host.Session.{without}
use pherry.Host.Session.Events.{
  or_same, subscribed, unsubscribed, wrote, resized, viewer_observed, viewer_resized,
  viewer_released, disposed, output, exited, drained,
}
use pherry.Host.Session.Screen.Live.{resize-Synced, on_output-Synced, release_viewer-Synced}

module _ {M : Type 0} (mirror : Mirror M) (law : Repaints mirror) where
  observe_viewer-Synced :
      (viewer : ℕ) (size : Size) (s : Session M)
      → Fits size
      → Synced mirror law s
      → Synced mirror law (observe_viewer mirror viewer size s)
  unfolding observe_viewer
  observe_viewer-Synced viewer size s fits h = record {
    sized = h.sized;
    fits = h.fits;
    current = h.current;
    waiting =
        AllValues-insert (λ (v : Viewport). Fits v.size) viewer
          (record { size = size; at_ = suc s.viewport_tick }) s.viewports fits h.waiting;
  }

  resize_viewer-Synced :
      (w : ℕ → Bool) (viewer : ℕ) (size : Size) (s : Session M)
      → Fits size
      → Synced mirror law s
      → Synced mirror law (resize_viewer mirror w viewer size s)
  unfolding resize_viewer
  resize_viewer-Synced w viewer size s fits h = resize-Synced mirror law w size _ fits (record {
    sized = h.sized;
    fits = h.fits;
    current = h.current;
    waiting =
        AllValues-insert (λ (v : Viewport). Fits v.size) viewer
          (record { size = size; at_ = suc s.viewport_tick }) s.viewports fits h.waiting;
  })

  subscribe-Synced :
      (flow : Bool) (w : ℕ → Bool) (s : Session M)
      → Synced mirror law s
      → Synced mirror law (perform mirror (subscribed flow w) s)
  unfolding subscribe follow replay
  subscribe-Synced flow w s h =
      let last =
        if s.ended
        then frame PtyOpcode.ended s.stream_id s.ended_seq (encode_exit_payload none) ∷ []
        else [] in
      let P : Option (Session M) → Type 0 = λ o. Synced mirror law (or_same mirror s o) in
      if_elim P s.disposed none _ (λ _. h)
        (λ _. record {
          sized = h.sized;
          fits = h.fits;
          waiting = h.waiting;
          current = All-append (Current mirror s.mirror) s.subscribers _ h.current (
            record {
              waits = λ q. absurd (cc);
              sees = λ q start.
                  replay-append mirror start (emit_snapshot mirror s) last
                  ∙ ap (λ m. replay mirror m last)
                      (replay-emit_snapshot mirror law s start h.sized h.fits)
                  ∙ if_elim (λ l. replay mirror s.mirror l ≡ s.mirror) s.ended
                      (frame PtyOpcode.ended s.stream_id s.ended_seq (encode_exit_payload none)
                        ∷ [])
                      [] (λ _. refl) (λ _. refl);
            },
            tt,
          );
        })

  without-All :
      (P : Subscriber → Type 0) (id : ℕ) (subs : List Subscriber)
      → All P subs
      → All P (without id subs)
  unfolding without
  without-All P id [] h = tt
  without-All P id (sub ∷ subs) h =
      if_elim (λ x. All P x) (sub.id == id) _ _ (λ _. without-All P id subs h.1)
        (λ _. (h.0, without-All P id subs h.1))

  unsubscribe-Synced :
      (id : ℕ) (s : Session M) → Synced mirror law s → Synced mirror law (unsubscribe mirror id s)
  unfolding unsubscribe
  unsubscribe-Synced id s h = record {
    sized = h.sized;
    fits = h.fits;
    waiting = h.waiting;
    current = without-All (Current mirror s.mirror) id s.subscribers h.current;
  }

  write-Synced :
      (bytes : List ℕ) (who : Option ℕ) (s : Session M)
      → Synced mirror law s
      → Synced mirror law (write mirror bytes who s)
  unfolding write
  write-Synced bytes who s h =
      if_elim (Synced mirror law) (s.ended || s.disposed) s _ (λ _. h)
        (λ _. record { sized = h.sized; fits = h.fits; waiting = h.waiting; current = h.current })

  dispose-Synced : (s : Session M) → Synced mirror law s → Synced mirror law (dispose mirror s)
  unfolding dispose
  dispose-Synced s h =
      if_elim (Synced mirror law) s.disposed s _ (λ _. h)
        (λ _. record { sized = h.sized; fits = h.fits; waiting = h.waiting; current = tt })

  on_exit-Synced :
      (w : ℕ → Bool) (exit : Option ℤ) (s : Session M)
      → Synced mirror law s
      → Synced mirror law (on_exit mirror w exit s).0
  unfolding on_exit broadcast
  on_exit-Synced w exit s h =
      if_elim (λ (r : Session M × List Subscriber). Synced mirror law r.0) (s.ended || s.disposed)
        (s, []) _ (λ _. h)
        (λ _. record { sized = h.sized; fits = h.fits; waiting = h.waiting; current = tt })

  -- A gap and a snapshot bring a subscriber back.
  pub resumed-Current :
      (w : ℕ → Bool) (s : Session M)
      → Synced mirror law s
      → (sub : Subscriber) → Current mirror s.mirror sub
      → Current mirror s.mirror
          (resumed w (frame PtyOpcode.gap s.stream_id s.seq [] ∷ emit_snapshot mirror s) sub)
  unfolding resumed replay
  resumed-Current w s h sub c =
      if_elim (λ x. Current mirror s.mirror x) (not sub.paused) _ _ (λ _. c)
        (λ _.
          if_elim (λ x. Current mirror s.mirror x) (not sub.missed) _ _
            (λ q. record { sees = c.sees; waits = λ r. absurd (ground arith) })
            (λ q. record {
              sees = λ r start.
                  replay-append mirror start sub.sink _
                  ∙ replay-emit_snapshot mirror law s _ h.sized h.fits;
              waits = λ r. absurd (cc);
            }))

  resume_subscriber-Synced :
      (w : ℕ → Bool) (id : ℕ) (s : Session M)
      → Synced mirror law s
      → Synced mirror law (resume_subscriber mirror w id s)
  unfolding resume_subscriber
  resume_subscriber-Synced w id s h = record {
    sized = h.sized;
    fits = h.fits;
    waiting = h.waiting;
    current =
        All-map (Current mirror s.mirror) (Current mirror s.mirror) _ s.subscribers
          (λ sub c.
            if_elim (λ x. Current mirror s.mirror x) (sub.id == id) _ _
              (λ _. resumed-Current w s h sub c) (λ _. c))
          h.current;
  }

  perform-Synced :
      (e : Event) (s : Session M)
      → Sized e
      → Synced mirror law s
      → Synced mirror law (perform mirror e s)
  perform-Synced (subscribed flow w) s sized h = subscribe-Synced flow w s h
  perform-Synced (unsubscribed id) s sized h = unsubscribe-Synced id s h
  perform-Synced (wrote bytes who) s sized h = write-Synced bytes who s h
  perform-Synced (resized w size) s sized h = resize-Synced mirror law w size s sized h
  perform-Synced (viewer_observed v size) s sized h = observe_viewer-Synced v size s sized h
  perform-Synced (viewer_resized w v size) s sized h = resize_viewer-Synced w v size s sized h
  perform-Synced (viewer_released w v) s sized h = release_viewer-Synced mirror law w v s h
  perform-Synced disposed s sized h = dispose-Synced s h
  perform-Synced (output w bytes) s sized h = on_output-Synced mirror law w bytes s h
  perform-Synced (exited w exit) s sized h = on_exit-Synced w exit s h
  perform-Synced (drained w id) s sized h = resume_subscriber-Synced w id s h

  run-Synced :
      (es : List Event) (s : Session M)
      → All Sized es
      → Synced mirror law s
      → Synced mirror law (run mirror es s)
  run-Synced [] s sized h = h
  run-Synced (e ∷ es) s sized h =
      run-Synced es (perform mirror e s) sized.1 (perform-Synced e s sized.0 h)

  new_session-Synced :
      (stream_id : ℕ) (ring : ByteRing) (size : Size)
      → Fits size
      → Synced mirror law (new_session mirror stream_id ring size)
  unfolding new_session
  new_session-Synced stream_id ring size fits = record {
    sized = law.size-blank size;
    fits = fits;
    waiting = tt;
    current = tt;
  }

  -- After any events the session is in step.
  pub run-new_session-Synced :
      (es : List Event) (stream_id : ℕ) (ring : ByteRing) (size : Size)
      → Fits size
      → All Sized es
      → Synced mirror law (run mirror es (new_session mirror stream_id ring size))
  run-new_session-Synced es stream_id ring size fits sized =
      run-Synced es (new_session mirror stream_id ring size) sized
        (new_session-Synced stream_id ring size fits)

  -- Of an emulator that keeps its promises: after any events, with sizes that fit a frame, every
  -- subscriber that is tracked and from which no frame was kept sees the host's screen, and the others
  -- are paused.
  pub run-Current :
      (es : List Event) (stream_id : ℕ) (ring : ByteRing) (size : Size)
      → Fits size
      → All Sized es
      → All
          (Current mirror (run mirror es (new_session mirror stream_id ring size)).mirror)
          (run mirror es (new_session mirror stream_id ring size)).subscribers
  run-Current es stream_id ring size fits sized =
      (run-new_session-Synced es stream_id ring size fits sized).current
