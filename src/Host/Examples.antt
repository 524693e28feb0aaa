-- ===== src/Host/Examples.antt =====
-- Runs of packages/host at fixed inputs, and its theorems there.
use pherry.Base.{
  ℕ, suc, ◌≤◌, ◌≡◌, ◌==◌, refl, sym, ap, true, false, List, [], ◌∷◌, ◌++◌, some, length, flatten,
  All, map, arith, append-nil, append_assoc,
}
use pherry.Base.Maps.{lookup, delete}
use pherry.Host.Ring.{ByteRing, new_ring, append, concat, evict, trim}
use pherry.Host.Ring.Window.{append_all, concat-append_all, IsSuffix}
use pherry.Host.Session.{Session, Mirror, new_session, hand, frame}
use pherry.Host.Session.Viewer.{Repaints}
use pherry.Host.Session.Events.{Event, Sized, run, subscribed, output, viewer_resized, drained}
use pherry.Host.Session.Control.{resume_subscriber, on_exit, release_viewer, heir}
use pherry.Host.Session.Screen.{Current}
use pherry.Host.Session.Screen.Run.{run-Current, run-new_session-Synced}
use pherry.Host.Session.Recovery.{CaughtUp, resume_subscriber-CaughtUp, on_exit_told}
use pherry.Host.Session.Authority.{Latest, release_viewer-heir}
use pherry.Protocol.PtyPayloads.{negsuc, PtyOpcode, Size, encode_exit_payload}

abbrev small_ring : ByteRing
small_ring = record { chunks = []; max_bytes = 4; byte_length = 0 }

abbrev three_chunks : List (List ℕ)
three_chunks = (1 ∷ 2 ∷ []) ∷ (3 ∷ []) ∷ (4 ∷ 5 ∷ []) ∷ []

small_ring_new : new_ring 4 ≡ some small_ring
unfolding new_ring
small_ring_new = refl

-- The oldest chunk goes whole.
evicts_oldest : concat (append_all three_chunks small_ring) ≡ some (3 ∷ 4 ∷ 5 ∷ [])
unfolding append_all append evict trim concat
evicts_oldest = refl

concat-append_all_example :
    (out : List ℕ) × (concat (append_all three_chunks small_ring) ≡ some out)
    × IsSuffix out (flatten three_chunks)
    × (length out ≤ 4)
    × (length (flatten three_chunks) ≤ 4 → out ≡ flatten three_chunks)
concat-append_all_example = concat-append_all 4 three_chunks small_ring small_ring_new

-- An emulator that keeps the size and every byte that it read since it was blank.
abbrev plain_mirror : Mirror (Size × List ℕ)
plain_mirror = record {
  blank = λ size. (size, []);
  write = λ m bytes. (m.0, m.1 ++ bytes);
  resize = λ m size. (size, m.1);
  serialize = λ m. m.1;
}

plain-Repaints : Repaints plain_mirror
plain-Repaints = record {
  size = λ m. m.0;
  size-blank = λ s. refl;
  size-write = λ m bytes. refl;
  size-resize = λ m s. refl;
  write_nothing = λ m. ap (λ bytes. (m.0, bytes)) (append-nil m.1);
  write-append = λ m a b. ap (λ bytes. (m.0, bytes)) (sym (append_assoc m.1 a b));
  repaint = λ m. refl;
}

abbrev wide : Size
wide = record { cols = 120; rows = 40 }

abbrev narrow : Size
narrow = record { cols = 60; rows = 30 }

-- A laptop and a phone, whose transport fills and drains again.
abbrev two_viewers : List Event
two_viewers =
    subscribed true (λ id. true)
    ∷ output (λ id. true) (104 ∷ [])
    ∷ subscribed true (λ id. true)
    ∷ viewer_resized (λ id. id == 1) 5 narrow
    ∷ output (λ id. true) (105 ∷ [])
    ∷ drained (λ id. true) 2
    ∷ output (λ id. id == 1) (106 ∷ [])
    ∷ output (λ id. true) (107 ∷ [])
    ∷ []

two_viewers-Sized : All Sized two_viewers
two_viewers-Sized = omega arith

abbrev after : Session (Size × List ℕ)
after = run plain_mirror two_viewers (new_session plain_mirror 1 small_ring wide)

run-Current_example : All (Current plain_mirror after.mirror) after.subscribers
run-Current_example =
    run-Current plain_mirror plain-Repaints two_viewers 1 small_ring wide (omega arith)
      two_viewers-Sized

resume_subscriber-CaughtUp_example :
    All
      (CaughtUp plain_mirror (λ id. true) 2 after.mirror)
      (resume_subscriber plain_mirror (λ id. true) 2 after).subscribers
resume_subscriber-CaughtUp_example =
    resume_subscriber-CaughtUp plain_mirror plain-Repaints (λ id. true) 2 after
      (run-new_session-Synced plain_mirror plain-Repaints two_viewers 1 small_ring wide
        (omega arith) two_viewers-Sized)

-- A phone that took over the size of a laptop's session, and whose transport is full.
abbrev taken_over : Session (Size × List ℕ)
taken_over = record (new_session plain_mirror 1 small_ring narrow) {
  subscribers = record { id = 1; sink = []; flow = true; paused = true; missed = true } ∷ [];
  viewports = (5, record { size = wide; at_ = 1 }) ∷ (6, record { size = narrow; at_ = 2 }) ∷ [];
  viewport_tick = 2;
  size_authority = some 6;
}

on_exit_told_example :
    ((on_exit plain_mirror (λ id. false) (some (negsuc 0)) taken_over).1
      ≡ map
          (hand (
            frame PtyOpcode.ended taken_over.stream_id
              (suc taken_over.seq)
              (encode_exit_payload (some (negsuc 0)))))
          taken_over.subscribers)
    × ((on_exit plain_mirror (λ id. false) (some (negsuc 0)) taken_over).0.subscribers ≡ [])
    × ((on_exit plain_mirror (λ id. false) (some (negsuc 0)) taken_over).0.ended ≡ true)
    × ((on_exit plain_mirror (λ id. false) (some (negsuc 0)) taken_over).0.ended_seq
        ≡ suc taken_over.seq)
unfolding new_session
on_exit_told_example =
    on_exit_told plain_mirror (λ id. false) (some (negsuc 0)) taken_over refl refl

release_viewer-heir_example :
    ((release_viewer plain_mirror (λ id. true) 6 taken_over).size ≡ wide)
    × ((release_viewer plain_mirror (λ id. true) 6 taken_over).size_authority ≡ some 5)
    × Latest 1 (delete 6 taken_over.viewports)
unfolding new_session lookup delete heir
release_viewer-heir_example =
    release_viewer-heir plain_mirror (λ id. true) 6 taken_over (5, record { size = wide; at_ = 1 })
      refl refl refl refl (refl, tt) refl
