-- ===== src/Sdk/Events/Reassembly.antt =====
-- packages/sdk/src/events.ts and packages/host/src/session/session.ts: the snapshot that a host emits, in
-- the stream of a controller.
use pherry.Base.{
  ℕ, zero, suc, ◌+◌, ◌*◌, ◌≤◌, ◌<◌, ◌≡◌, refl, sym, ap, ap₂, ◌∙◌, ◌||◌, List, [], ◌∷◌, ◌++◌, Option,
  none, some, ltb, length, flatten, take, drop, map, if_elim, arith, append_assoc, append-nil,
  length-append, length-drop, take-append-drop,
}
use pherry.Host.Session.{Session, Mirror, frame, emit_snapshot, split_body, snapshot_chunk_bytes}
use pherry.Protocol.PtyFrame.{PtyFrame}
use pherry.Protocol.PtyPayloads.{PtyOpcode, Fits, decode-encode_size}
use pherry.Sdk.Events.{
  snapshot, PendingSnapshot, PtyEventStream, push, add_chunk, finish, start, ingest,
  max_snapshot_bytes, max_snapshot_chunks,
}

-- The frames one after another, up to one that throws.
abbrev then_ :
    (PtyEventStream → Option PtyEventStream) → Option PtyEventStream → Option PtyEventStream
then_ f none = none
then_ f (some s) = f s

abbrev pub ingest_all : List PtyFrame → PtyEventStream → Option PtyEventStream
ingest_all [] s = some s
ingest_all (f ∷ fs) s = then_ (ingest_all fs) (ingest f s)

then_append :
    (fs gs : List PtyFrame) (s' : PtyEventStream)
    → ((s : PtyEventStream)
        → ingest_all fs s ≡ some s'
        → ingest_all (fs ++ gs) s ≡ ingest_all gs s')
    → (o : Option PtyEventStream) → then_ (ingest_all fs) o ≡ some s'
    → then_ (ingest_all (fs ++ gs)) o ≡ ingest_all gs s'
then_append fs gs s' h none e = absurd (cc)
then_append fs gs s' h (some s) e = h s e

ingest_all-append :
    (fs gs : List PtyFrame) (s s' : PtyEventStream)
    → ingest_all fs s ≡ some s'
    → ingest_all (fs ++ gs) s ≡ ingest_all gs s'
ingest_all-append [] gs s s' e = ap (then_ (ingest_all gs)) e
ingest_all-append (f ∷ fs) gs s s' e =
    then_append fs gs s' (λ x. ingest_all-append fs gs x s') (ingest f s) e

abbrev reading : PtyEventStream → PendingSnapshot → PtyEventStream
reading s snap = record s { pending = some snap }

-- A snapshot in progress with these chunks, counted.
abbrev with_ : PtyEventStream → PendingSnapshot → List (List ℕ) → ℕ → Option PtyEventStream
with_ s snap chunks bytes = some (reading s (record snap { chunks = chunks; bytes = bytes }))

abbrev grown : PendingSnapshot → List (List ℕ) → PendingSnapshot
grown snap chunks = record snap {
  chunks = snap.chunks ++ chunks;
  bytes = snap.bytes + length (flatten chunks);
}

add_chunk_fits :
    (s : PtyEventStream) (snap : PendingSnapshot) (payload : List ℕ)
    → snap.bytes + length payload ≤ max_snapshot_bytes
    → length snap.chunks < max_snapshot_chunks
    → add_chunk payload (some snap) (reading s snap)
      ≡ reading s (record snap {
        chunks = snap.chunks ++ payload ∷ [];
        bytes = snap.bytes + length payload;
      })
unfolding add_chunk
add_chunk_fits s snap payload bytes chunks =
    let count = length-append snap.chunks (payload ∷ []) in
    if_elim
      (λ x.
        x
        ≡ reading s (record snap {
          chunks = snap.chunks ++ payload ∷ [];
          bytes = snap.bytes + length payload;
        }))
      (ltb max_snapshot_bytes (snap.bytes + length payload)
        || ltb max_snapshot_chunks (length (snap.chunks ++ payload ∷ [])))
      _ _ (λ q. absurd (ground arith)) (λ _. refl)

-- Chunks within the limits are kept, in order.
ingest_chunks :
    (id seq : ℕ) (chunks : List (List ℕ)) (s : PtyEventStream) (snap : PendingSnapshot)
    → snap.bytes + length (flatten chunks) ≤ max_snapshot_bytes
    → length snap.chunks + length chunks ≤ max_snapshot_chunks
    → ingest_all (map (frame PtyOpcode.snapshot_chunk id seq) chunks) (reading s snap)
      ≡ some (reading s (grown snap chunks))
unfolding ingest
ingest_chunks id seq [] s snap bytes count =
    ap₂ (with_ s snap) (sym (append-nil snap.chunks)) (omega arith)
ingest_chunks id seq (chunk ∷ chunks) s snap bytes count =
    let both = length-append chunk (flatten chunks) in
    let snap' : PendingSnapshot = record snap {
      chunks = snap.chunks ++ chunk ∷ [];
      bytes = snap.bytes + length chunk;
    } in
    let longer = length-append snap.chunks (chunk ∷ []) in
    ap (ingest_all (map (frame PtyOpcode.snapshot_chunk id seq) chunks))
      (add_chunk_fits s snap chunk (omega arith) (omega arith))
    ∙ ingest_chunks id seq chunks s snap' (omega arith) (omega arith)
    ∙ ap₂ (with_ s snap) (append_assoc snap.chunks (chunk ∷ []) chunks) (omega arith)

-- The chunks are the body, and few.
flatten-split_body :
    (fuel : ℕ) (body : List ℕ) → length body ≤ fuel → flatten (split_body fuel body) ≡ body
unfolding split_body
flatten-split_body zero [] h = refl
flatten-split_body zero (b ∷ body) h = absurd (omega arith)
flatten-split_body (suc fuel) [] h = refl
flatten-split_body (suc fuel) (b ∷ body) h =
    ap (λ rest. take snapshot_chunk_bytes (b ∷ body) ++ rest)
      (flatten-split_body fuel (drop snapshot_chunk_bytes (b ∷ body))
        (omega (arith, length-drop snapshot_chunk_bytes (b ∷ body))))
    ∙ take-append-drop snapshot_chunk_bytes (b ∷ body)

length-split_body :
    (fuel : ℕ) (body : List ℕ)
    → length (split_body fuel body) * snapshot_chunk_bytes < length body + snapshot_chunk_bytes
unfolding split_body
length-split_body zero body = omega arith
length-split_body (suc fuel) [] = omega arith
length-split_body (suc fuel) (b ∷ body) = omega (
  arith,
  length-drop snapshot_chunk_bytes (b ∷ body),
  length-split_body fuel (drop snapshot_chunk_bytes (b ∷ body)),
)

-- A host's snapshot, of at most 8 MiB, is pushed as one event: its size, its seq and the whole
-- serialized screen. Nothing is left of the frames.
pub ingest-emit_snapshot :
    {M : Type 0} (mirror : Mirror M) (host : Session M) (s : PtyEventStream)
    → Fits host.size
    → length (mirror.serialize host.mirror) ≤ max_snapshot_bytes
    → ingest_all (emit_snapshot mirror host) s
      ≡ some (
          push
            (snapshot host.seq host.size (mirror.serialize host.mirror))
            (record s { pending = none }))
unfolding emit_snapshot ingest start finish
ingest-emit_snapshot mirror host s fits short =
    let body = mirror.serialize host.mirror in
    let chunks = split_body (length body) body in
    let whole = flatten-split_body (length body) body (omega arith) in
    let size = ap length whole in
    let count = length-split_body (length body) body in
    let empty : PendingSnapshot = record {
      seq = host.seq;
      size = host.size;
      chunks = [];
      bytes = 0;
    } in
    let last = frame PtyOpcode.snapshot_end host.stream_id host.seq [] ∷ [] in
    let body_frames = map (frame PtyOpcode.snapshot_chunk host.stream_id host.seq) chunks in
    ap (λ o. then_ (ingest_all (body_frames ++ last)) (start host.seq o s))
      (decode-encode_size host.size fits)
    ∙ ingest_all-append body_frames last (reading s empty) (reading s (grown empty chunks))
        (ingest_chunks host.stream_id host.seq chunks s empty (omega arith) (omega arith))
    ∙ ap (λ b. some (push (snapshot host.seq host.size b) (record s { pending = none }))) whole
