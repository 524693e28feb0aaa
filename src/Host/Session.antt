-- ===== src/Host/Session.antt =====
-- packages/host/src/session/session.ts: one agent, mirrored to every viewer. The emulator of mirror.ts
-- is a parameter, and a sink's `writable` is what its transport answers during the operation.
pub mod Control
pub mod Viewer
pub mod Events
pub mod Screen
pub mod Recovery
pub mod Authority
use pherry.Base.{
  ℕ, zero, suc, ◌+◌, ◌*◌, Bool, true, false, not, ◌&&◌, ◌||◌, List, [], ◌∷◌, ◌++◌, Option, none,
  some, ltb, ◌==◌, if◌then◌else◌, length, take, drop, map,
}
use pherry.Base.Maps.{lookup, insert, delete}
use pherry.Host.Ring.{ByteRing, append, clear, new_ring}
use pherry.Protocol.PtyFrame.{PtyFrame}
use pherry.Protocol.PtyPayloads.{PtyOpcode, code, Size, encode_size_payload, encode_exit_payload}

-- `Mirror`, on the emulator's state. `serialize` is the text as `TextEncoder` encodes it.
pub record Mirror (M : Type 0) : Type 0 where
  pub blank : Size → M
  pub write : M → List ℕ → M
  pub resize : M → Size → M
  pub serialize : M → List ℕ

-- `Subscriber`: `sink` is the frames that the sink was handed, the oldest first, and `flow` whether
-- there is one. `id` is the object's identity.
pub record Subscriber : Type 0 where
  pub id : ℕ
  pub sink : List PtyFrame
  pub flow : Bool
  pub paused : Bool
  pub missed : Bool

-- An entry of `#viewports`.
pub record Viewport : Type 0 where
  pub size : Size
  pub at_ : ℕ

-- What a session asks of its backend.
pub data Call : Type 0 where
  write : List ℕ → Call
  resize : Size → Call
  dispose : Call

abbrev pub snapshot_chunk_bytes : ℕ
snapshot_chunk_bytes = 16 * 1024

-- The fields of `Session`. `calls` is what the backend was asked, the latest first, and `objects`
-- counts the subscribers that were made.
pub record Session (M : Type 0) : Type 0 where
  pub stream_id : ℕ
  pub ring : ByteRing
  pub mirror : M
  pub subscribers : List Subscriber
  pub size : Size
  pub seq : ℕ
  pub ended : Bool
  pub ended_seq : ℕ
  pub disposed : Bool
  pub last_writer : Option ℕ
  pub viewports : List (ℕ × Viewport)
  pub viewport_tick : ℕ
  pub size_authority : Option ℕ
  pub calls : List Call
  pub objects : ℕ

abbrev pub frame : PtyOpcode → ℕ → ℕ → List ℕ → PtyFrame
frame opcode stream_id seq payload = record {
  opcode = code opcode;
  stream_id = stream_id;
  seq = seq;
  payload = payload;
}

-- `sink(frame)`
abbrev pub hand : PtyFrame → Subscriber → Subscriber
hand f sub = record sub { sink = sub.sink ++ f ∷ [] }

-- The loop of `#emitSnapshot` over the offsets, on the bytes from the offset on. The fuel is the length.
unfoldable pub split_body : ℕ → List ℕ → List (List ℕ)
split_body zero body = []
split_body (suc fuel) [] = []
split_body (suc fuel) (b ∷ body) =
    take snapshot_chunk_bytes (b ∷ body) ∷ split_body fuel (drop snapshot_chunk_bytes (b ∷ body))

-- `#subscribers.delete`
unfoldable pub without : ℕ → List Subscriber → List Subscriber
without id [] = []
without id (sub ∷ subs) = if sub.id == id then without id subs else sub ∷ without id subs

-- The body of the loop of `#broadcast`.
unfoldable pub deliver : Bool → (ℕ → Bool) → PtyFrame → Subscriber → Subscriber
deliver terminal writable f sub =
    if sub.paused && not terminal
    then record sub { missed = true }
    else if not terminal && (sub.flow && not (writable sub.id))
    then record (hand f sub) { paused = true }
    else hand f sub

module _ {M : Type 0} (mirror : Mirror M) where
  -- The constructor, on a ring that it has built.
  unfoldable pub new_session : ℕ → ByteRing → Size → Session M
  new_session stream_id ring size = record {
    stream_id = stream_id;
    ring = ring;
    mirror = mirror.blank size;
    subscribers = [];
    size = size;
    seq = 0;
    ended = false;
    ended_seq = 0;
    disposed = false;
    last_writer = none;
    viewports = [];
    viewport_tick = 0;
    size_authority = none;
    calls = [];
    objects = 0;
  }

  -- `#emitSnapshot`: the frames that it hands to the sink.
  unfoldable pub emit_snapshot : Session M → List PtyFrame
  emit_snapshot s =
      let body = mirror.serialize s.mirror in
      frame PtyOpcode.snapshot_start s.stream_id s.seq (encode_size_payload s.size)
        ∷ map (frame PtyOpcode.snapshot_chunk s.stream_id s.seq) (split_body (length body) body)
      ++ frame PtyOpcode.snapshot_end s.stream_id s.seq [] ∷ []

  -- `#broadcast`: the seq that it returns is the new state's.
  unfoldable pub broadcast : Bool → (ℕ → Bool) → PtyOpcode → List ℕ → Session M → Session M
  broadcast terminal writable opcode payload s =
      let seq = suc s.seq in
      record s {
        seq = seq;
        subscribers =
            map (deliver terminal writable (frame opcode s.stream_id seq payload)) s.subscribers;
      }

  -- `subscribe`: `none` where it throws. The subscriber's identity is the new `objects`.
  unfoldable pub subscribe : Bool → (ℕ → Bool) → Session M → Option (Session M)
  subscribe flow writable s =
      let id = suc s.objects in
      let last =
        if s.ended
        then frame PtyOpcode.ended s.stream_id s.ended_seq (encode_exit_payload none) ∷ []
        else [] in
      let subscriber : Subscriber = record {
        id = id;
        sink = emit_snapshot s ++ last;
        flow = flow;
        paused = flow && (not s.ended && not (writable id));
        missed = false;
      } in
      if s.disposed
      then none
      else some (record s { subscribers = s.subscribers ++ subscriber ∷ []; objects = id })

  -- The function that `subscribe` returns.
  unfoldable pub unsubscribe : ℕ → Session M → Session M
  unsubscribe id s = record s { subscribers = without id s.subscribers }
