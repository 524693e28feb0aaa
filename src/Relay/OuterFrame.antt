-- ===== src/Relay/OuterFrame.antt =====
-- packages/relay-core/src/outer-frame.ts, the framing half: `u32_BE(len) || payload`.
-- A chunk is the list of its bytes; a chunk is kept by reference in the source and never written to,
-- so a list stands for it. Offsets and lengths are far below 2^53, where numbers are exact.
pub mod Reader
pub mod Framing
use pherry.Base.{
  ℕ, ◌+◌, ◌-◌, ◌*◌, List, [], ◌∷◌, ◌++◌, Option, none, some, ltb, leb, ◌==◌, if◌then◌else◌, length,
  take, drop, replicate,
}
use pherry.Base.Words.{to_uint32, uint32_be}

abbrev pub outer_length_prefix_bytes : ℕ
outer_length_prefix_bytes = 4

abbrev pub max_outer_message_bytes : ℕ
max_outer_message_bytes = 16 * 1024

-- `OuterFrameError`: what `encodeOuterMessage` and `next` throw, with the length that they name.
pub data OuterFrameError : Type 0 where
  exceeds_maximum : ℕ → OuterFrameError

pub data Result {ℓ} (A : Type ℓ) : Type ℓ where
  ok : A → Result A
  err : OuterFrameError → Result A

-- `encodeOuterMessage` on the bytes of the serialised message.
pub encode_outer_payload : List ℕ → Result (List ℕ)
encode_outer_payload payload =
    if ltb max_outer_message_bytes (length payload)
    then err (exceeds_maximum (length payload))
    else ok (uint32_be (length payload) ++ payload)

-- The fields `#chunks` and `#length`.
pub record OuterFrameReader : Type 0 where
  pub chunks : List (List ℕ)
  pub buffered : ℕ

unfoldable pub empty_reader : OuterFrameReader
empty_reader = record { chunks = []; buffered = 0 }

pub push : OuterFrameReader → List ℕ → OuterFrameReader
push r chunk =
    if length chunk == 0
    then r
    else record { chunks = r.chunks ++ chunk ∷ []; buffered = r.buffered + length chunk }

-- Where the two loops of `#peekUint32BE` are: they have returned, or `value` and `read` so far.
pub data Peek : Type 0 where
  returned : ℕ → Peek
  running : ℕ → ℕ → Peek

-- `for (const byte of chunk)`
pub peek_chunk : List ℕ → ℕ → ℕ → Peek
peek_chunk [] value read = running value read
peek_chunk (byte ∷ bytes) value read =
    let value' = value * 256 + byte in
    let rest = peek_chunk bytes value' (read + 1) in
    if leb outer_length_prefix_bytes (read + 1) then returned (to_uint32 value') else rest

-- `for (const chunk of this.#chunks)`
pub peek_chunks : List (List ℕ) → ℕ → ℕ → ℕ
peek_chunks [] value read = to_uint32 value
peek_chunks (chunk ∷ chunks) value read = elim (peek_chunk chunk value read) [
  | returned result ↦ result
  | running value' read' ↦ peek_chunks chunks value' read'
]

pub peek_uint32_be : OuterFrameReader → ℕ
peek_uint32_be r = peek_chunks r.chunks 0 0

-- The loop of `#take` while `want = n - filled` bytes are missing: what it copies to `out`, and the
-- chunks that it leaves.
pub take_loop : ℕ → List (List ℕ) → List ℕ × List (List ℕ)
take_loop want [] = ([], [])
take_loop want (head ∷ chunks) =
    let rest = take_loop (want - length head) chunks in
    if want == 0
    then ([], head ∷ chunks)
    else if leb (length head) want
    then (head ++ rest.0, rest.1)
    else (take want head, drop want head ∷ chunks)

-- `out` starts as `n` zeros; `filled` of them are written.
pub take_bytes : ℕ → OuterFrameReader → List ℕ × OuterFrameReader
take_bytes n r =
    let (out, chunks) = take_loop n r.chunks in
    let filled = length out in
    (out ++ replicate (n - filled) 0, record { chunks = chunks; buffered = r.buffered - filled })

-- `next`: `none` is `null`, an incomplete frame, which leaves the reader as it is.
pub next : OuterFrameReader → Result (Option (List ℕ) × OuterFrameReader)
next r =
    let len = peek_uint32_be r in
    let body = take_bytes len (take_bytes outer_length_prefix_bytes r).1 in
    if ltb r.buffered outer_length_prefix_bytes
    then ok (none, r)
    else if ltb max_outer_message_bytes len
    then err (exceeds_maximum len)
    else if ltb r.buffered (outer_length_prefix_bytes + len)
    then ok (none, r)
    else ok (some body.0, body.1)

pub drain_remaining : OuterFrameReader → List ℕ × OuterFrameReader
drain_remaining r = take_bytes r.buffered r
