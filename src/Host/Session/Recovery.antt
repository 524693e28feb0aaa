-- ===== src/Host/Session/Recovery.antt =====
-- packages/host/src/session/session.ts: a drain brings a subscriber back, and the end reaches all of them.
use pherry.Base.{
  ℕ, suc, ◌≡◌, refl, ap, ap₂, ◌∙◌, inl, inr, Bool, true, false, not, ◌&&◌, ◌||◌, List, [], ◌∷◌,
  Option, ◌==◌, All, All-map, map, if_elim, Bool-cases, arith,
}
use pherry.Host.Session.{Session, Subscriber, Mirror, frame, hand, deliver, broadcast}
use pherry.Host.Session.Control.{on_exit, resume_subscriber, resumed}
use pherry.Host.Session.Screen.{Current, Synced}
use pherry.Host.Session.Screen.Run.{resumed-Current}
use pherry.Host.Session.Viewer.{Repaints, replay}
use pherry.Protocol.PtyFrame.{PtyFrame}
use pherry.Protocol.PtyPayloads.{ℤ, PtyOpcode, encode_exit_payload}

module _ {M : Type 0} (mirror : Mirror M) where
  -- A subscriber that, if it has this identity, has missed nothing, sees this screen, and flows if its
  -- transport does.
  abbrev pub CaughtUp : (ℕ → Bool) → ℕ → M → Subscriber → Type 0
  CaughtUp w id m sub =
      sub.id ≡ id
      → (sub.missed ≡ false)
        × ((start : M) → replay mirror start sub.sink ≡ m)
        × (w id ≡ true → sub.paused ≡ false)

  resumed-CaughtUp :
      (w : ℕ → Bool) (m : M) (resync : List PtyFrame) (sub : Subscriber)
      → Current mirror m sub
      → ((resumed w resync sub).missed ≡ false)
        × (w sub.id ≡ true → (resumed w resync sub).paused ≡ false)
  unfolding resumed
  resumed-CaughtUp w m resync sub c =
      let P : Subscriber → Type 0 =
        λ x. (x.missed ≡ false) × (w sub.id ≡ true → x.paused ≡ false) in
      if_elim P (not sub.paused) _ _
        (λ p. (
          elim (Bool-cases sub.missed) [
            | inl q ↦ absurd (let waits = c.waits q in ground arith)
            | inr q ↦ q
          ],
          λ _. ground arith,
        ))
        (λ _.
          if_elim P (not sub.missed) _ _ (λ q. (ground arith, λ _. refl))
            (λ q. (refl, λ open_. ground arith)))

  -- Of an emulator that keeps its promises, and a session whose subscribers are in step: after a drain the
  -- subscriber whose transport it was has missed nothing and sees the host's screen, and unless its
  -- transport has filled again it is not paused.
  pub resume_subscriber-CaughtUp :
      (law : Repaints mirror) (w : ℕ → Bool) (id : ℕ) (s : Session M)
      → Synced mirror law s
      → All (CaughtUp w id s.mirror) (resume_subscriber mirror w id s).subscribers
  unfolding resume_subscriber
  resume_subscriber-CaughtUp law w id s h =
      All-map (Current mirror s.mirror) (CaughtUp w id s.mirror) _ s.subscribers
        (λ sub c.
          if_elim (CaughtUp w id s.mirror) (sub.id == id) _ _
            (λ q _.
              let (missed, flows) = resumed-CaughtUp w s.mirror _ sub c in
              let screen = resumed-Current mirror law w s h sub c in
              (missed, screen.sees missed, λ open_. flows (ap w (ground arith) ∙ open_)))
            (λ q r. absurd (ground arith)))
        h.current

  -- Each subscriber, paused or not, is handed the frame.
  deliver_terminal :
      (w : ℕ → Bool) (f : PtyFrame) (subs : List Subscriber)
      → map (deliver true w f) subs ≡ map (hand f) subs
  unfolding deliver
  deliver_terminal w f [] = refl
  deliver_terminal w f (sub ∷ subs) =
      ap₂ (λ x xs. x ∷ xs)
        (if_elim (λ x. x ≡ hand f sub) (sub.paused && false) _ _ (λ e. absurd (ground arith))
          (λ _. refl))
        (deliver_terminal w f subs)

  -- The exit of a live session goes to every subscriber, paused or not, as the last frame, under the next seq,
  -- and then the session tracks none.
  pub on_exit_told :
      (w : ℕ → Bool) (exit : Option ℤ) (s : Session M)
      → s.ended ≡ false
      → s.disposed ≡ false
      → ((on_exit mirror w exit s).1
          ≡ map
              (hand (frame PtyOpcode.ended s.stream_id (suc s.seq) (encode_exit_payload exit)))
              s.subscribers)
        × ((on_exit mirror w exit s).0.subscribers ≡ [])
        × ((on_exit mirror w exit s).0.ended ≡ true)
        × ((on_exit mirror w exit s).0.ended_seq ≡ suc s.seq)
  unfolding on_exit broadcast
  on_exit_told w exit s live kept =
      let subs =
        map (hand (frame PtyOpcode.ended s.stream_id (suc s.seq) (encode_exit_payload exit)))
          s.subscribers in
      let P : Session M × List Subscriber → Type 0 = λ r.
        (r.1 ≡ subs) × (r.0.subscribers ≡ []) × (r.0.ended ≡ true) × (r.0.ended_seq ≡ suc s.seq) in
      if_elim P (s.ended || s.disposed) _ _ (λ q. absurd (ground arith))
        (λ _. (deliver_terminal w _ s.subscribers, refl, refl, refl))
