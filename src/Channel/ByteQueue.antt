-- ===== src/Channel/ByteQueue.antt =====
-- packages/channel/src/byte-queue.ts: the queue that reframes the inbound bytes. A chunk is a caller's array
-- or a view of the accumulator's backing buffer.
pub mod Splice
pub mod Content
pub mod Take
pub mod Flat
use pherry.Base.{
  ℕ, zero, suc, ◌+◌, ◌-◌, ◌*◌, Bool, ◌&&◌, List, [], ◌∷◌, ◌++◌, Option, none, some, ltb, leb, ◌==◌,
  if◌then◌else◌, length, take, drop, replicate, map, flatten,
}
use pherry.Base.Words.{to_uint32}

abbrev pub coalesce_threshold : ℕ
coalesce_threshold = 256

-- An element of `#chunks`: an array of its own, or the offset and the length of a view of `#backing`.
pub data Chunk : Type 0 where
  own : List ℕ → Chunk
  view : ℕ → ℕ → Chunk

-- The fields of `ByteQueue`.
pub record ByteQueue : Type 0 where
  pub chunks : List Chunk
  pub byte_length : ℕ
  pub backing : Option (List ℕ)
  pub backing_used : ℕ

abbrev pub empty_queue : ByteQueue
empty_queue = record { chunks = []; byte_length = 0; backing = none; backing_used = 0 }

-- The bytes of the backing buffer, where there is one.
abbrev pub buffer : Option (List ℕ) → List ℕ
buffer none = []
buffer (some bytes) = bytes

-- The bytes of a chunk.
unfoldable pub read : List ℕ → Chunk → List ℕ
read b (own bytes) = bytes
read b (view offset len) = take len (drop offset b)

-- `chunk.length`
unfoldable pub chunk_length : Chunk → ℕ
chunk_length (own bytes) = length bytes
chunk_length (view offset len) = len

-- `backing.set(chunk, offset)`, of a chunk for which there is room.
unfoldable pub set_at : ℕ → List ℕ → List ℕ → List ℕ
set_at offset bytes b = take offset b ++ (bytes ++ drop (offset + length bytes) b)

-- A loop that copies chunks into a buffer from an offset on: the offset and the buffer after it. The first
-- argument reads a chunk, given the buffer as it is by then.
unfoldable pub copy_all : (List ℕ → Chunk → List ℕ) → List Chunk → ℕ → List ℕ → ℕ × List ℕ
copy_all read_from [] offset b = (offset, b)
copy_all read_from (c ∷ cs) offset b =
    let bytes = read_from b c in
    copy_all read_from cs (offset + length bytes) (set_at offset bytes b)

-- The in-place path of `#coalesce`, with the backing buffer and the offset of the head.
unfoldable pub append_in_place : List ℕ → ℕ → List Chunk → ByteQueue → ByteQueue
append_in_place b start rest q =
    let (offset, b') = copy_all read rest q.backing_used b in
    record q { backing = some b'; backing_used = offset; chunks = view start (offset - start) ∷ [] }

-- The fresh allocation of `#coalesce`.
unfoldable pub reallocate : ByteQueue → ByteQueue
reallocate q =
    let (offset, b') =
      copy_all (λ _. read (buffer q.backing)) q.chunks 0 (replicate (q.byte_length * 2) 0) in
    record q { backing = some b'; backing_used = offset; chunks = view 0 offset ∷ [] }

-- `#coalesce`, on the backing and the chunks. The comparison of lengths is written without subtraction.
unfoldable pub coalesce_from : Option (List ℕ) → List Chunk → ByteQueue → ByteQueue
coalesce_from (some b) (view offset len ∷ rest) q =
    if (offset + len == q.backing_used) && leb (q.byte_length + q.backing_used) (length b + len)
    then append_in_place b offset rest q
    else reallocate q
coalesce_from backing chunks q = reallocate q

unfoldable pub coalesce : ByteQueue → ByteQueue
coalesce q = coalesce_from q.backing q.chunks q

-- `push`
unfoldable pub push : List ℕ → ByteQueue → ByteQueue
push chunk q =
    let q' = record q {
      chunks = q.chunks ++ own chunk ∷ [];
      byte_length = q.byte_length + length chunk;
    } in
    if length chunk == 0
    then q
    else if ltb coalesce_threshold (length q'.chunks)
    then coalesce q'
    else q'

-- The inner loop of `peekUint32BE`: the value, and how many bytes are still to be read.
unfoldable pub peek_chunk : ℕ → ℕ → List ℕ → ℕ × ℕ
peek_chunk value zero bytes = (value, zero)
peek_chunk value (suc left) [] = (value, suc left)
peek_chunk value (suc left) (byte ∷ bytes) = peek_chunk (value * 256 + byte) left bytes

-- The outer loop. Where nothing is left to read, no chunk changes the value, which the source returns at once.
unfoldable pub peek_chunks : ℕ → ℕ → List (List ℕ) → ℕ
peek_chunks value left [] = value
peek_chunks value left (chunk ∷ chunks) =
    let (value', left') = peek_chunk value left chunk in peek_chunks value' left' chunks

-- `peekUint32BE`
unfoldable pub peek_uint32_be : ByteQueue → ℕ
peek_uint32_be q = to_uint32 (peek_chunks 0 4 (map (read (buffer q.backing)) q.chunks))

-- `head.subarray(want)`
unfoldable pub cut : ℕ → Chunk → Chunk
cut n (own bytes) = own (drop n bytes)
cut n (view offset len) = view (offset + n) (len - n)

-- The loop of `take`, on the bytes that are still wanted: what it writes, and the chunks that stay.
unfoldable pub take_chunks : List ℕ → ℕ → List Chunk → List ℕ × List Chunk
take_chunks b want [] = ([], [])
take_chunks b want (head ∷ chunks) =
    let rest = take_chunks b (want - chunk_length head) chunks in
    if want == 0
    then ([], head ∷ chunks)
    else if leb (chunk_length head) want
    then (read b head ++ rest.0, rest.1)
    else (take want (read b head), cut want head ∷ chunks)

-- `take` once its loop is over: a queue without chunks releases its buffer.
unfoldable pub settle : List Chunk → ℕ → ByteQueue → ByteQueue
settle [] filled q = record {
  chunks = [];
  byte_length = q.byte_length - filled;
  backing = none;
  backing_used = 0;
}
settle (c ∷ cs) filled q = record q { chunks = c ∷ cs; byte_length = q.byte_length - filled }

-- `take`: what was not filled stays zero.
unfoldable pub take_bytes : ℕ → ByteQueue → List ℕ × ByteQueue
take_bytes n q =
    let (out, chunks) = take_chunks (buffer q.backing) n q.chunks in
    (out ++ replicate (n - length out) 0, settle chunks (length out) q)
