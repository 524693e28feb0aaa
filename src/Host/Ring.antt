-- ===== src/Host/Ring.antt =====
-- packages/host/src/session/ring.ts: the byte-bounded ring of raw output.
pub mod Window
use pherry.Base.{
  ℕ, ◌+◌, ◌-◌, List, [], ◌∷◌, ◌++◌, Option, none, some, ltb, ◌==◌, if◌then◌else◌, length, drop,
  flatten, replicate,
}

-- `#chunks`, `#max` and `#bytes`.
pub record ByteRing : Type 0 where
  pub chunks : List (List ℕ)
  pub max_bytes : ℕ
  pub byte_length : ℕ

-- The constructor throws on a cap that is not positive.
unfoldable pub new_ring : ℕ → Option ByteRing
new_ring max_bytes =
    if max_bytes == 0
    then none
    else some (record { chunks = []; max_bytes = max_bytes; byte_length = 0 })

-- `while (this.#bytes > this.#max && this.#chunks.length > 1)`, on the cap, the chunks and the count.
unfoldable pub evict : ℕ → List (List ℕ) → ℕ → List (List ℕ) × ℕ
evict cap [] bytes = ([], bytes)
evict cap (only ∷ []) bytes = (only ∷ [], bytes)
evict cap (removed ∷ next ∷ chunks) bytes =
    let rest = evict cap (next ∷ chunks) (bytes - length removed) in
    if ltb cap bytes then rest else (removed ∷ next ∷ chunks, bytes)

-- The last step of `append`: of a single chunk over the cap only the tail stays.
unfoldable pub trim : ℕ → List (List ℕ) → ℕ → List (List ℕ) × ℕ
trim cap (only ∷ []) bytes =
    let tail = drop (length only - cap) only in
    if ltb cap bytes then (tail ∷ [], length tail) else (only ∷ [], bytes)
trim cap chunks bytes = (chunks, bytes)

unfoldable pub append : ByteRing → List ℕ → ByteRing
append r bytes =
    let (kept, count) = evict r.max_bytes (r.chunks ++ bytes ∷ []) (r.byte_length + length bytes) in
    let (chunks, byte_length) = trim r.max_bytes kept count in
    if length bytes == 0 then r else record r { chunks = chunks; byte_length = byte_length }

-- `concat`: the chunks copied one behind the other into `#bytes` zeros. `none` is the RangeError of
-- `out.set`, for chunks longer than the count.
unfoldable pub concat : ByteRing → Option (List ℕ)
concat r =
    let copied = flatten r.chunks in
    if ltb r.byte_length (length copied)
    then none
    else some (copied ++ replicate (r.byte_length - length copied) 0)

unfoldable pub clear : ByteRing → ByteRing
clear r = record r { chunks = []; byte_length = 0 }
