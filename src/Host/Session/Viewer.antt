-- ===== src/Host/Session/Viewer.antt =====
-- packages/host/src/session/session.ts: the frames of a snapshot, on a viewer's terminal.
use pherry.Base.{
  ℕ, zero, suc, ◌≤◌, ◌≡◌, refl, sym, ap, ◌∙◌, List, [], ◌∷◌, ◌++◌, Option, none, some, ◌==◌,
  if◌then◌else◌, length, take, drop, map, arith, take-append-drop, length-drop,
}
use pherry.Host.Session.{Session, Mirror, frame, emit_snapshot, split_body, snapshot_chunk_bytes}
use pherry.Protocol.PtyFrame.{PtyFrame}
use pherry.Protocol.PtyPayloads.{
  PtyOpcode, code, Size, Fits, encode_size_payload, decode_size_payload, decode-encode_size,
}

-- What an emulator promises: it reads bytes one after another, keeps the size that it was given last,
-- and what it serializes repaints a blank screen of its size.
pub record Repaints {M : Type 0} (mirror : Mirror M) : Type 0 where
  pub size : M → Size
  pub size-blank : (s : Size) → size (mirror.blank s) ≡ s
  pub size-write : (m : M) (bytes : List ℕ) → size (mirror.write m bytes) ≡ size m
  pub size-resize : (m : M) (s : Size) → size (mirror.resize m s) ≡ s
  pub write_nothing : (m : M) → mirror.write m [] ≡ m
  pub write-append :
      (m : M) (a b : List ℕ) → mirror.write m (a ++ b) ≡ mirror.write (mirror.write m a) b
  pub repaint : (m : M) → mirror.write (mirror.blank (size m)) (mirror.serialize m) ≡ m

module _ {M : Type 0} (mirror : Mirror M) where
  -- What a payload of a size does to the terminal.
  abbrev on_size : (Size → M) → M → Option Size → M
  on_size f m none = m
  on_size f m (some size) = f size

  abbrev pub at_size : (Size → M) → M → List ℕ → M
  at_size f m payload = on_size f m (decode_size_payload payload)

  -- A terminal of a viewer, that follows the frames which its sink is handed.
  unfoldable pub follow : M → PtyFrame → M
  follow m f =
      if f.opcode == code PtyOpcode.output
      then mirror.write m f.payload
      else if f.opcode == code PtyOpcode.snapshot_chunk
      then mirror.write m f.payload
      else if f.opcode == code PtyOpcode.snapshot_start
      then at_size mirror.blank m f.payload
      else if f.opcode == code PtyOpcode.resized
      then at_size (mirror.resize m) m f.payload
      else m

  unfoldable pub replay : M → List PtyFrame → M
  replay m [] = m
  replay m (f ∷ fs) = replay (follow m f) fs

  pub replay-append :
      (m : M) (fs gs : List PtyFrame) → replay m (fs ++ gs) ≡ replay (replay m fs) gs
  unfolding replay
  replay-append m [] gs = refl
  replay-append m (f ∷ fs) gs = replay-append (follow m f) fs gs

  at_size_fits :
      (f : Size → M) (m : M) (size : Size)
      → Fits size
      → at_size f m (encode_size_payload size) ≡ f size
  at_size_fits f m size h = ap (on_size f m) (decode-encode_size size h)

  pub follow-resized :
      (m : M) (id seq : ℕ) (size : Size)
      → Fits size
      → follow m (frame PtyOpcode.resized id seq (encode_size_payload size)) ≡ mirror.resize m size
  unfolding follow
  follow-resized m id seq size h = at_size_fits (mirror.resize m) m size h

  pub follow_start :
      (m : M) (id seq : ℕ) (size : Size)
      → Fits size
      → follow m (frame PtyOpcode.snapshot_start id seq (encode_size_payload size))
        ≡ mirror.blank size
  unfolding follow
  follow_start m id seq size h = at_size_fits mirror.blank m size h

  module _ (law : Repaints mirror) where
    -- The chunks, which together are the body, write the body.
    replay_chunks :
        (fuel : ℕ) (body : List ℕ) (m : M) (id seq : ℕ)
        → length body ≤ fuel
        → replay m (map (frame PtyOpcode.snapshot_chunk id seq) (split_body fuel body))
          ≡ mirror.write m body
    unfolding replay split_body follow
    replay_chunks zero [] m id seq h = sym (law.write_nothing m)
    replay_chunks zero (b ∷ body) m id seq h = absurd (omega arith)
    replay_chunks (suc fuel) [] m id seq h = sym (law.write_nothing m)
    replay_chunks (suc fuel) (b ∷ body) m id seq h =
        let chunk = take snapshot_chunk_bytes (b ∷ body) in
        let rest = drop snapshot_chunk_bytes (b ∷ body) in
        replay_chunks fuel rest (mirror.write m chunk) id seq
          (omega (arith, length-drop snapshot_chunk_bytes (b ∷ body)))
        ∙ sym (law.write-append m chunk rest)
        ∙ ap (mirror.write m) (take-append-drop snapshot_chunk_bytes (b ∷ body))

    -- A snapshot brings any terminal to the host's screen.
    pub replay-emit_snapshot :
        (s : Session M) (start : M)
        → law.size s.mirror ≡ s.size
        → Fits s.size
        → replay start (emit_snapshot mirror s) ≡ s.mirror
    unfolding replay emit_snapshot follow
    replay-emit_snapshot s start sized fits =
        let body = mirror.serialize s.mirror in
        let chunks =
          map (frame PtyOpcode.snapshot_chunk s.stream_id s.seq) (split_body (length body) body) in
        ap (λ m. replay m (chunks ++ frame PtyOpcode.snapshot_end s.stream_id s.seq [] ∷ []))
          (follow_start start s.stream_id s.seq s.size fits)
        ∙ replay-append (mirror.blank s.size) chunks
            (frame PtyOpcode.snapshot_end s.stream_id s.seq [] ∷ [])
        ∙ replay_chunks (length body) body (mirror.blank s.size) s.stream_id s.seq (omega arith)
        ∙ ap (λ x. mirror.write (mirror.blank x) body) (sym sized)
        ∙ law.repaint s.mirror
