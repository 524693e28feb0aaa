-- ===== src/Host/Session/Screen.antt =====
-- packages/host/src/session/session.ts: when what the viewers see is the host's screen.
pub mod Live
pub mod Run
use pherry.Base.{
  ℕ, zero, suc, ◌≡◌, ◌⊎◌, inl, inr, refl, sym, ap, subst, ◌∙◌, Bool, true, false, not, ◌&&◌, ◌||◌,
  List, [], ◌∷◌, ◌++◌, Option, none, some, ◌==◌, if◌then◌else◌, All, All-map, All-append, map,
  if_elim, Bool-cases, Option-cases, arith,
}
use pherry.Base.Maps.{
  lookup, insert, delete, AllValues, AllValues-insert, AllValues-delete, AllValues-lookup,
}
use pherry.Host.Ring.{ByteRing}
use pherry.Host.Session.{
  Session, Subscriber, Viewport, Mirror, frame, hand, deliver, new_session, emit_snapshot,
  broadcast, subscribe, unsubscribe,
}
use pherry.Host.Session.Control.{
  resize, write, observe_viewer, resize_viewer, release_viewer, inherit, heir, same_size, dispose,
  on_output, on_exit, resume_subscriber, resumed, restore, holds, is_some,
}
use pherry.Host.Session.Viewer.{
  Repaints, follow, replay, replay-append, follow-resized, replay-emit_snapshot,
}
use pherry.Protocol.PtyFrame.{PtyFrame}
use pherry.Protocol.PtyPayloads.{PtyOpcode, Size, Fits, encode_size_payload}
use pherry.Host.Session.Events.{Event, Sized, perform, run}

module _ {M : Type 0} (mirror : Mirror M) where
  -- A subscriber from which nothing was kept has the screen before it, and one that missed a frame waits
  -- for its transport.
  pub record Current (m : M) (sub : Subscriber) : Type 0 where
    pub sees : sub.missed ≡ false → (start : M) → replay mirror start sub.sink ≡ m
    pub waits : sub.missed ≡ true → sub.paused ≡ true

  module _ (law : Repaints mirror) where
    pub record Synced (s : Session M) : Type 0 where
      pub sized : law.size s.mirror ≡ s.size
      pub fits : Fits s.size
      pub waiting : AllValues (λ (v : Viewport). Fits v.size) s.viewports
      pub current : All (Current s.mirror) s.subscribers
