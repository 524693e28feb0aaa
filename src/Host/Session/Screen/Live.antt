-- ===== src/Host/Session/Screen/Live.antt =====
-- packages/host/src/session/session.ts: what is broadcast, and a viewer that leaves, keep every viewer in
-- step with the host's screen.
use pherry.Base.{
  ℕ, suc, ◌≡◌, inl, inr, refl, ap, ◌∙◌, Bool, true, false, not, ◌&&◌, ◌||◌, List, [], ◌∷◌, Option,
  none, some, All, All-map, if_elim, Bool-cases, arith,
}
use pherry.Base.Maps.{lookup, delete, AllValues, AllValues-delete, AllValues-lookup}
use pherry.Host.Session.{Session, Subscriber, Viewport, Mirror, frame, hand, deliver, broadcast}
use pherry.Host.Session.Control.{
  resize, release_viewer, inherit, heir, same_size, on_output, restore, holds, is_some,
}
use pherry.Host.Session.Viewer.{Repaints, follow, replay, replay-append, follow-resized}
use pherry.Protocol.PtyFrame.{PtyFrame}
use pherry.Protocol.PtyPayloads.{PtyOpcode, Size, Fits, encode_size_payload}
use pherry.Host.Session.Screen.{Current, Synced}

module _ {M : Type 0} (mirror : Mirror M) (law : Repaints mirror) where
  hand-Current :
      (m m' : M) (f : PtyFrame) (sub : Subscriber)
      → follow mirror m f ≡ m'
      → sub.missed ≡ false
      → Current mirror m sub
      → (start : M) → replay mirror start (hand f sub).sink ≡ m'
  unfolding replay
  hand-Current m m' f sub e none_missed c start =
      replay-append mirror start sub.sink (f ∷ [])
      ∙ ap (λ x. follow mirror x f) (c.sees none_missed start)
      ∙ e

  -- A live frame keeps every subscriber current.
  deliver-Current :
      (w : ℕ → Bool) (m m' : M) (f : PtyFrame)
      → follow mirror m f ≡ m'
      → (sub : Subscriber) → Current mirror m sub
      → Current mirror m' (deliver false w f sub)
  unfolding deliver
  deliver-Current w m m' f e sub c =
      if_elim (λ x. Current mirror m' x) (sub.paused && true) _ _
        (λ p. record { sees = λ q. absurd (cc); waits = λ q. ground arith })
        (λ p.
          let kept : sub.missed ≡ false = elim (Bool-cases sub.missed) [
            | inl q ↦ absurd (let waits = c.waits q in ground arith)
            | inr q ↦ q
          ] in
          if_elim (λ x. Current mirror m' x) (sub.flow && not (w sub.id)) _ _
            (λ q. record { sees = λ r. hand-Current m m' f sub e kept c; waits = λ r. refl })
            (λ q. record {
              sees = λ r. hand-Current m m' f sub e kept c;
              waits = λ r. absurd (cc);
            }))

  -- A broadcast that says what has become of the screen.
  broadcast-Synced :
      (w : ℕ → Bool) (opcode : PtyOpcode) (payload : List ℕ) (m : M) (s : Session M)
      → All (Current mirror m) s.subscribers
      → follow mirror m (frame opcode s.stream_id (suc s.seq) payload) ≡ s.mirror
      → law.size s.mirror ≡ s.size
      → Fits s.size
      → AllValues (λ (v : Viewport). Fits v.size) s.viewports
      → Synced mirror law (broadcast mirror false w opcode payload s)
  unfolding broadcast
  broadcast-Synced w opcode payload m s c e sized fits waiting = record {
    sized = sized;
    fits = fits;
    waiting = waiting;
    current =
        All-map (Current mirror m) (Current mirror s.mirror)
          (deliver false w (frame opcode s.stream_id (suc s.seq) payload)) s.subscribers
          (deliver-Current w m s.mirror (frame opcode s.stream_id (suc s.seq) payload) e) c;
  }

  pub resize-Synced :
      (w : ℕ → Bool) (size : Size) (s : Session M)
      → Fits size
      → Synced mirror law s
      → Synced mirror law (resize mirror w size s)
  unfolding resize
  resize-Synced w size s fits h =
      if_elim (Synced mirror law) (s.ended || s.disposed) s _ (λ _. h)
        (λ _.
          broadcast-Synced w PtyOpcode.resized (encode_size_payload size) s.mirror _ h.current
            (follow-resized mirror s.mirror s.stream_id (suc s.seq) size fits)
            (law.size-resize s.mirror size) fits h.waiting)

  pub on_output-Synced :
      (w : ℕ → Bool) (bytes : List ℕ) (s : Session M)
      → Synced mirror law s
      → Synced mirror law (on_output mirror w bytes s)
  unfolding on_output follow
  on_output-Synced w bytes s h =
      if_elim (Synced mirror law) (s.ended || s.disposed) s _ (λ _. h)
        (λ _.
          broadcast-Synced w PtyOpcode.output bytes s.mirror _ h.current refl
            (law.size-write s.mirror bytes ∙ h.sized) h.fits h.waiting)

  restore-Synced :
      (w : ℕ → Bool) (viewer : ℕ) (o : Option Viewport) (s : Session M)
      → ((v : Viewport) → o ≡ some v → Fits v.size)
      → Synced mirror law s
      → Synced mirror law (restore mirror w viewer o s)
  unfolding restore
  restore-Synced w viewer none s f h = h
  restore-Synced w viewer (some viewport) s f h =
      let s' : Synced mirror law (record s { size_authority = some viewer }) = record {
        sized = h.sized;
        fits = h.fits;
        waiting = h.waiting;
        current = h.current;
      } in
      if_elim (Synced mirror law) (same_size viewport.size s.size) _ _ (λ _. s')
        (λ _. resize-Synced w viewport.size _ (f viewport refl) s')

  inherit-Synced :
      (w : ℕ → Bool) (best : Option (ℕ × Viewport)) (s : Session M)
      → Synced mirror law s
      → Synced mirror law (inherit mirror w best s)
  unfolding inherit
  inherit-Synced w none s h = h
  inherit-Synced w (some (viewer, best)) s h =
      restore-Synced w viewer (lookup viewer s.viewports) s
        (λ v e. AllValues-lookup (λ (x : Viewport). Fits x.size) viewer s.viewports h.waiting e) h

  pub release_viewer-Synced :
      (w : ℕ → Bool) (viewer : ℕ) (s : Session M)
      → Synced mirror law s
      → Synced mirror law (release_viewer mirror w viewer s)
  unfolding release_viewer
  release_viewer-Synced w viewer s h =
      let left = AllValues-delete (λ (v : Viewport). Fits v.size) viewer s.viewports h.waiting in
      let freed : Synced mirror law
          (record s { viewports = delete viewer s.viewports; size_authority = none }) =
        record { sized = h.sized; fits = h.fits; waiting = left; current = h.current } in
      if_elim (Synced mirror law) (not (holds s.size_authority viewer)) _ _
        (λ _. record { sized = h.sized; fits = h.fits; waiting = left; current = h.current })
        (λ _.
          if_elim (Synced mirror law) (not (is_some (lookup viewer s.viewports))) _ _ (λ _. freed)
            (λ _. inherit-Synced w (heir none (delete viewer s.viewports)) _ freed))
