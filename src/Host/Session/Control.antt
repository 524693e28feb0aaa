-- ===== src/Host/Session/Control.antt =====
-- packages/host/src/session/session.ts: input, the size and who has authority over it, the backend's
-- events, and the resumption of a subscriber that was paused. A viewer's symbol is a number.
use pherry.Base.{
  ℕ, suc, Bool, true, false, not, ◌&&◌, ◌||◌, List, [], ◌∷◌, ◌++◌, Option, none, some, ltb, ◌==◌,
  if◌then◌else◌, map,
}
use pherry.Base.Maps.{lookup, insert, delete}
use pherry.Host.Ring.{append, clear}
use pherry.Host.Session.{
  Session, Subscriber, Viewport, Mirror, Call, frame, broadcast, emit_snapshot,
}
use pherry.Protocol.PtyFrame.{PtyFrame}
use pherry.Protocol.PtyPayloads.{ℤ, PtyOpcode, Size, encode_size_payload, encode_exit_payload}

-- The loop of `releaseViewer`, on the heir that it has; `none` is -1.
unfoldable pub heir : Option (ℕ × Viewport) → List (ℕ × Viewport) → Option (ℕ × Viewport)
heir best [] = best
heir none (v ∷ vs) = heir (some v) vs
heir (some best) (v ∷ vs) = heir (some (if ltb best.1.at_ v.1.at_ then v else best)) vs

-- `record.cols === this.#cols && record.rows === this.#rows`
abbrev pub same_size : Size → Size → Bool
same_size a b = (a.cols == b.cols) && (a.rows == b.rows)

-- `this.#sizeAuthority === viewer`
abbrev pub holds : Option ℕ → ℕ → Bool
holds none viewer = false
holds (some holder) viewer = holder == viewer

-- Whether a map has an entry.
abbrev pub is_some {ℓ} : {A : Type ℓ} → Option A → Bool
is_some none = false
is_some (some a) = true

-- `#resumeSubscriber` on a subscriber that is tracked.
unfoldable pub resumed : (ℕ → Bool) → List PtyFrame → Subscriber → Subscriber
resumed writable resync sub =
    if not sub.paused
    then sub
    else if not sub.missed
    then record sub { paused = false }
    else record sub {
      sink = sub.sink ++ resync;
      missed = false;
      paused = sub.flow && not (writable sub.id);
    }

module _ {M : Type 0} (mirror : Mirror M) where
  -- `write`
  unfoldable pub write : List ℕ → Option ℕ → Session M → Session M
  write bytes who s = if s.ended || s.disposed then s else record s {
    last_writer = elim who [ none ↦ s.last_writer | some w ↦ some w ];
    calls = Call.write bytes ∷ s.calls;
  }

  -- `resize`
  unfoldable pub resize : (ℕ → Bool) → Size → Session M → Session M
  resize writable size s =
      if s.ended || s.disposed
      then s
      else broadcast mirror false writable PtyOpcode.resized (encode_size_payload size) (record s {
        size = size;
        calls = Call.resize size ∷ s.calls;
        mirror = mirror.resize s.mirror size;
      })

  -- `observeViewer`
  unfoldable pub observe_viewer : ℕ → Size → Session M → Session M
  observe_viewer viewer size s =
      let tick = suc s.viewport_tick in
      record s {
        viewport_tick = tick;
        viewports = insert viewer (record { size = size; at_ = tick }) s.viewports;
      }

  -- `resizeViewer`
  unfoldable pub resize_viewer : (ℕ → Bool) → ℕ → Size → Session M → Session M
  resize_viewer writable viewer size s =
      let tick = suc s.viewport_tick in
      resize writable size (record s {
        viewport_tick = tick;
        viewports = insert viewer (record { size = size; at_ = tick }) s.viewports;
        size_authority = some viewer;
      })

  -- `releaseViewer` from `record` on, which is what `get` finds.
  unfoldable pub restore : (ℕ → Bool) → ℕ → Option Viewport → Session M → Session M
  restore writable viewer none s = s
  restore writable viewer (some viewport) s =
      let s' = record s { size_authority = some viewer } in
      if same_size viewport.size s.size then s' else resize writable viewport.size s'

  -- `releaseViewer` once there is an heir, or none.
  unfoldable pub inherit : (ℕ → Bool) → Option (ℕ × Viewport) → Session M → Session M
  inherit writable none s = s
  inherit writable (some (viewer, best)) s = restore writable viewer (lookup viewer s.viewports) s

  -- `releaseViewer`
  unfoldable pub release_viewer : (ℕ → Bool) → ℕ → Session M → Session M
  release_viewer writable viewer s =
      let viewports = delete viewer s.viewports in
      let s' = record s { viewports = viewports } in
      if not (holds s.size_authority viewer)
      then s'
      else if not (is_some (lookup viewer s.viewports))
      then record s' { size_authority = none }
      else inherit writable (heir none viewports) (record s' { size_authority = none })

  -- `dispose`
  unfoldable pub dispose : Session M → Session M
  dispose s = if s.disposed then s else record s {
    disposed = true;
    subscribers = [];
    ring = clear s.ring;
    calls = if s.ended then s.calls else Call.dispose ∷ s.calls;
  }

  -- `#onOutput`
  unfoldable pub on_output : (ℕ → Bool) → List ℕ → Session M → Session M
  on_output writable bytes s =
      if s.ended || s.disposed
      then s
      else broadcast mirror false writable PtyOpcode.output bytes
          (record s { ring = append s.ring bytes; mirror = mirror.write s.mirror bytes })

  -- `#onExit`: the session, and the subscribers to which `Ended` went before they were dropped.
  unfoldable pub on_exit : (ℕ → Bool) → Option ℤ → Session M → Session M × List Subscriber
  on_exit writable exit s =
      let told = broadcast mirror true writable PtyOpcode.ended (encode_exit_payload exit) s in
      if s.ended || s.disposed
      then (s, [])
      else (record told { ended_seq = told.seq; ended = true; subscribers = [] }, told.subscribers)

  -- `#resumeSubscriber`
  unfoldable pub resume_subscriber : (ℕ → Bool) → ℕ → Session M → Session M
  resume_subscriber writable id s =
      let resync = frame PtyOpcode.gap s.stream_id s.seq [] ∷ emit_snapshot mirror s in
      record s {
        subscribers =
            map (λ sub. if sub.id == id then resumed writable resync sub else sub) s.subscribers;
      }
