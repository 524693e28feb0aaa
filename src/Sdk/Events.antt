-- ===== src/Sdk/Events.antt =====
-- packages/sdk/src/events.ts: the stream of decoded events of one subscription. A puller is the number of
-- the promise that a call of `next` returned; a pull that settles is written down with its answer.
pub mod Order
pub mod Reassembly
pub mod Settled
use pherry.Base.{
  ℕ, suc, ◌+◌, ◌*◌, Bool, true, false, ◌||◌, List, [], ◌∷◌, ◌++◌, Option, none, some, ltb, ◌==◌,
  if◌then◌else◌, length, flatten, map,
}
use pherry.Protocol.PtyFrame.{PtyFrame}
use pherry.Protocol.PtyPayloads.{ℤ, PtyOpcode, code, Size, decode_size_payload, decode_exit_payload}

-- `PtyEvent`
pub data PtyEvent : Type 0 where
  snapshot : ℕ → Size → List ℕ → PtyEvent
  output : ℕ → List ℕ → PtyEvent
  resize : ℕ → Size → PtyEvent
  ended : ℕ → Option ℤ → PtyEvent
  gap : ℕ → PtyEvent

-- `PendingSnapshot`
pub record PendingSnapshot : Type 0 where
  pub seq : ℕ
  pub size : Size
  pub chunks : List (List ℕ)
  pub bytes : ℕ

abbrev pub max_snapshot_bytes : ℕ
max_snapshot_bytes = 8 * 1024 * 1024

abbrev pub max_snapshot_chunks : ℕ
max_snapshot_chunks = 4096

-- How a pull settles: with an event, as done, or with the error of `#fail`.
pub data Answer : Type 0 where
  value : PtyEvent → Answer
  done failed : Answer

-- The fields of `PtyEventStream`. `heard` is what the listeners were handed and `settled` the pulls that
-- were answered, the oldest first.
pub record PtyEventStream : Type 0 where
  pub queue : List PtyEvent
  pub pullers : List ℕ
  pub heard : List PtyEvent
  pub settled : List (ℕ × Answer)
  pub pending : Option PendingSnapshot
  pub closed : Bool
  pub error : Bool

abbrev pub new_stream : PtyEventStream
new_stream = record {
  queue = [];
  pullers = [];
  heard = [];
  settled = [];
  pending = none;
  closed = false;
  error = false;
}

-- `#push`, once the listeners have heard.
unfoldable pub hand_on : PtyEvent → List ℕ → PtyEventStream → PtyEventStream
hand_on e [] s = record s { queue = s.queue ++ e ∷ [] }
hand_on e (pull ∷ pullers) s = record s {
  pullers = pullers;
  settled = s.settled ++ (pull, value e) ∷ [];
}

-- `#push`
unfoldable pub push : PtyEvent → PtyEventStream → PtyEventStream
push e s = if s.closed then s else hand_on e s.pullers (record s { heard = s.heard ++ e ∷ [] })

-- Every puller gets the answer.
abbrev pub answer_all : Answer → List ℕ → List (ℕ × Answer)
answer_all a pullers = map (λ pull. (pull, a)) pullers

-- `end`
unfoldable pub end_ : PtyEventStream → PtyEventStream
end_ s =
    if s.closed
    then s
    else record s { closed = true; settled = s.settled ++ answer_all done s.pullers; pullers = [] }

-- `#fail`
unfoldable pub fail : PtyEventStream → PtyEventStream
fail s = if s.closed then s else record s {
  closed = true;
  error = true;
  pending = none;
  settled = s.settled ++ answer_all failed s.pullers;
  pullers = [];
}

-- The handler of a `SnapshotChunk`, on the snapshot that is in progress.
unfoldable pub add_chunk : List ℕ → Option PendingSnapshot → PtyEventStream → PtyEventStream
add_chunk payload none s = s
add_chunk payload (some snap) s =
    let chunks = snap.chunks ++ payload ∷ [] in
    let bytes = snap.bytes + length payload in
    let s' = record s { pending = some (record snap { chunks = chunks; bytes = bytes }) } in
    if ltb max_snapshot_bytes bytes || ltb max_snapshot_chunks (length chunks) then fail s' else s'

-- The handler of a `SnapshotEnd`, on the snapshot that was in progress. `flatten` is `concat`.
unfoldable pub finish : Option PendingSnapshot → PtyEventStream → PtyEventStream
finish none s = record s { pending = none }
finish (some snap) s =
    push (snapshot snap.seq snap.size (flatten snap.chunks)) (record s { pending = none })

-- The handlers that decode a size, on what `decodeSizePayload` gives; `none` where it throws.
unfoldable pub start : ℕ → Option Size → PtyEventStream → Option PtyEventStream
start seq none s = none
start seq (some size) s =
    some (record s { pending = some (record { seq = seq; size = size; chunks = []; bytes = 0 }) })

unfoldable pub resized : ℕ → Option Size → PtyEventStream → Option PtyEventStream
resized seq none s = none
resized seq (some size) s = some (push (resize seq size) s)

unfoldable pub finished : ℕ → Option (Option ℤ) → PtyEventStream → Option PtyEventStream
finished seq none s = none
finished seq (some exit) s = some (end_ (push (ended seq exit) s))

-- `ingest`: `none` where it throws, and nothing has changed.
unfoldable pub ingest : PtyFrame → PtyEventStream → Option PtyEventStream
ingest f s =
    if f.opcode == code PtyOpcode.snapshot_start
    then start f.seq (decode_size_payload f.payload) s
    else if f.opcode == code PtyOpcode.snapshot_chunk
    then some (add_chunk f.payload s.pending s)
    else if f.opcode == code PtyOpcode.snapshot_end
    then some (finish s.pending s)
    else if f.opcode == code PtyOpcode.output
    then some (push (output f.seq f.payload) s)
    else if f.opcode == code PtyOpcode.resized
    then resized f.seq (decode_size_payload f.payload) s
    else if f.opcode == code PtyOpcode.ended
    then finished f.seq (decode_exit_payload f.payload) s
    else if f.opcode == code PtyOpcode.gap
    then some (push (gap f.seq) s)
    else some s

-- `next` of the iterator, on the queue.
unfoldable pub pull_from : ℕ → List PtyEvent → PtyEventStream → PtyEventStream
pull_from pull (queued ∷ queue) s = record s {
  queue = queue;
  settled = s.settled ++ (pull, value queued) ∷ [];
}
pull_from pull [] s =
    if s.error
    then record s { settled = s.settled ++ (pull, failed) ∷ [] }
    else if s.closed
    then record s { settled = s.settled ++ (pull, done) ∷ [] }
    else record s { pullers = s.pullers ++ pull ∷ [] }

unfoldable pub next : ℕ → PtyEventStream → PtyEventStream
next pull s = pull_from pull s.queue s
