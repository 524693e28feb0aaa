-- ===== src/Host/Session/Events.antt =====
-- packages/host/src/session/session.ts: every operation of a session and every event that reaches it, and
-- the sequences of them.
use pherry.Base.{ℕ, Bool, List, [], ◌∷◌, Option, none, some}
use pherry.Host.Session.{Session, Mirror, subscribe, unsubscribe}
use pherry.Host.Session.Control.{
  resize, write, observe_viewer, resize_viewer, release_viewer, dispose, on_output, on_exit,
  resume_subscriber,
}
use pherry.Protocol.PtyPayloads.{ℤ, Size, Fits}

-- The operations of a session and the events that reach it, each with what the transports answer.
pub data Event : Type 0 where
  subscribed : Bool → (ℕ → Bool) → Event
  unsubscribed : ℕ → Event
  wrote : List ℕ → Option ℕ → Event
  resized : (ℕ → Bool) → Size → Event
  viewer_observed : ℕ → Size → Event
  viewer_resized : (ℕ → Bool) → ℕ → Size → Event
  viewer_released : (ℕ → Bool) → ℕ → Event
  disposed : Event
  output : (ℕ → Bool) → List ℕ → Event
  exited : (ℕ → Bool) → Option ℤ → Event
  drained : (ℕ → Bool) → ℕ → Event

-- The sizes of an event fit the payload of a frame.
abbrev pub Sized : Event → Type 0
Sized (resized w size) = Fits size
Sized (viewer_observed v size) = Fits size
Sized (viewer_resized w v size) = Fits size
Sized e = Unit

module _ {M : Type 0} (mirror : Mirror M) where
  -- A `subscribe` that throws leaves the session as it is.
  abbrev pub or_same : Session M → Option (Session M) → Session M
  or_same s none = s
  or_same s (some s') = s'

  abbrev pub perform : Event → Session M → Session M
  perform (subscribed flow w) s = or_same s (subscribe mirror flow w s)
  perform (unsubscribed id) s = unsubscribe mirror id s
  perform (wrote bytes who) s = write mirror bytes who s
  perform (resized w size) s = resize mirror w size s
  perform (viewer_observed v size) s = observe_viewer mirror v size s
  perform (viewer_resized w v size) s = resize_viewer mirror w v size s
  perform (viewer_released w v) s = release_viewer mirror w v s
  perform disposed s = dispose mirror s
  perform (output w bytes) s = on_output mirror w bytes s
  perform (exited w exit) s = (on_exit mirror w exit s).0
  perform (drained w id) s = resume_subscriber mirror w id s

  abbrev pub run : List Event → Session M → Session M
  run [] s = s
  run (e ∷ es) s = run es (perform e s)
