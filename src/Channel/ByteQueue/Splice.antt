-- ===== src/Channel/ByteQueue/Splice.antt =====
-- packages/channel/src/byte-queue.ts: what a copy into the slack of a buffer leaves alone.
use pherry.Base.{
  ℕ, ◌+◌, ◌-◌, ◌≤◌, ◌≡◌, refl, sym, ap, ap₂, ◌∙◌, List, [], ◌∷◌, ◌++◌, length, take, drop, map,
  flatten, All, arith, length-take, length-drop, length-append, take-append_le, take-append_ge,
  drop-append_ge, take-append-drop, append_assoc, append-nil, drop-drop, take-drop_within,
  take-length-append,
}
use pherry.Channel.ByteQueue.{Chunk, own, view, read, chunk_length, set_at, copy_all}

-- A chunk that holds bytes, within what is used of the buffer.
abbrev pub Within : ℕ → Chunk → Type 0
Within used (own bytes) = 1 ≤ length bytes
Within used (view offset len) = (1 ≤ len) × (offset + len ≤ used)

-- A chunk reads the same from every buffer that agrees on what is used.
pub read_prefix :
    (used : ℕ) (b b' : List ℕ) (c : Chunk)
    → used ≤ length b
    → used ≤ length b'
    → take used b ≡ take used b'
    → Within used c
    → read b c ≡ read b' c
unfolding read
read_prefix used b b' (own bytes) h h' same w = refl
read_prefix used b b' (view offset len) h h' same w =
    take-drop_within offset len used b w.1 h
    ∙ ap (λ xs. take len (drop offset xs)) same
    ∙ sym (take-drop_within offset len used b' w.1 h')

pub length-read :
    (used : ℕ) (b : List ℕ) (c : Chunk)
    → used ≤ length b
    → Within used c
    → length (read b c) ≡ chunk_length c
unfolding read chunk_length
length-read used b (own bytes) h w = refl
length-read used b (view offset len) h w =
    omega (arith, length-take len (drop offset b), length-drop offset b)

-- A chunk is written behind what it leaves in front, and before what it leaves behind.
take-set_at :
    (offset : ℕ) (bytes b : List ℕ)
    → offset ≤ length b
    → take (offset + length bytes) (set_at offset bytes b) ≡ take offset b ++ bytes
unfolding set_at
take-set_at offset bytes b h =
    let size = length-take offset b in
    take-append_ge (offset + length bytes) (take offset b) (bytes ++ drop (offset + length bytes) b)
      (omega arith)
    ∙ ap (λ n. take offset b ++ take n (bytes ++ drop (offset + length bytes) b)) (omega arith)
    ∙ ap (λ xs. take offset b ++ xs) (take-length-append bytes (drop (offset + length bytes) b))

drop-set_at :
    (offset n : ℕ) (bytes b : List ℕ)
    → offset ≤ length b
    → offset + length bytes ≤ n
    → drop n (set_at offset bytes b) ≡ drop n b
unfolding set_at
drop-set_at offset n bytes b h hn =
    let size = length-take offset b in
    let tail = drop (offset + length bytes) b in
    drop-append_ge n (take offset b) (bytes ++ tail) (omega arith)
    ∙ drop-append_ge (n - length (take offset b)) bytes tail (omega arith)
    ∙ drop-drop (n - length (take offset b) - length bytes) (offset + length bytes) b
    ∙ ap (λ k. drop k b) (omega arith)

length-set_at :
    (offset : ℕ) (bytes b : List ℕ)
    → offset + length bytes ≤ length b
    → length (set_at offset bytes b) ≡ length b
unfolding set_at
length-set_at offset bytes b h = omega (
  arith,
  length-append (take offset b) (bytes ++ drop (offset + length bytes) b),
  length-append bytes (drop (offset + length bytes) b),
  length-take offset b,
  length-drop (offset + length bytes) b,
)

-- What is in front of the offset stays.
take-set_at_front :
    (used offset : ℕ) (bytes b : List ℕ)
    → used ≤ offset
    → offset ≤ length b
    → take used (set_at offset bytes b) ≡ take used b
unfolding set_at
take-set_at_front used offset bytes b h h' =
    take-append_le used (take offset b) _ (omega (arith, length-take offset b))
    ∙ sym
        (take-append_le used (take offset b) (drop offset b) (omega (arith, length-take offset b)))
    ∙ ap (take used) (take-append-drop offset b)

reads_same :
    (P : Chunk → Type 0) (read_from : List ℕ → Chunk → List ℕ) (used : ℕ) (cs : List Chunk)
    (b b' : List ℕ)
    → ((b' : List ℕ) (c : Chunk)
        → length b' ≡ length b
        → take used b' ≡ take used b
        → P c
        → read_from b' c ≡ read_from b c)
    → length b' ≡ length b
    → take used b' ≡ take used b
    → All P cs
    → flatten (map (read_from b') cs) ≡ flatten (map (read_from b) cs)
reads_same P read_from used [] b b' same e t ws = refl
reads_same P read_from used (c ∷ cs) b b' same e t ws =
    ap₂ (λ x y. x ++ y) (same b' c e t ws.0) (reads_same P read_from used cs b b' same e t ws.1)

-- A loop that reads its chunks from one list of bytes for each, whatever it has written by then, writes them
-- one behind the other.
pub copy_all_writes :
    (P : Chunk → Type 0) (read_from : List ℕ → Chunk → List ℕ) (used : ℕ) (cs : List Chunk)
    (offset : ℕ) (b : List ℕ)
    → ((b' : List ℕ) (c : Chunk)
        → length b' ≡ length b
        → take used b' ≡ take used b
        → P c
        → read_from b' c ≡ read_from b c)
    → used ≤ offset
    → All P cs
    → offset + length (flatten (map (read_from b) cs)) ≤ length b
    → ((copy_all read_from cs offset b).0 ≡ offset + length (flatten (map (read_from b) cs)))
      × (take (offset + length (flatten (map (read_from b) cs))) (copy_all read_from cs offset b).1
          ≡ take offset b ++ flatten (map (read_from b) cs))
      × (length (copy_all read_from cs offset b).1 ≡ length b)
unfolding copy_all
copy_all_writes P read_from used [] offset b same h ws room =
    (omega arith, ap (λ n. take n b) (omega arith) ∙ sym (append-nil (take offset b)), refl)
copy_all_writes P read_from used (c ∷ cs) offset b same h ws room =
    let bytes = read_from b c in
    let b' = set_at offset bytes b in
    let later = flatten (map (read_from b) cs) in
    let split = length-append bytes later in
    let size = length-set_at offset bytes b (omega arith) in
    let front = take-set_at_front used offset bytes b h (omega arith) in
    let reads : flatten (map (read_from b') cs) ≡ later =
      reads_same P read_from used cs b b' same size front ws.1 in
    let lengths = ap length reads in
    let (offset', written, kept) =
      copy_all_writes P read_from used cs (offset + length bytes) b'
        (λ b'' c' e t w. same b'' c' (e ∙ size) (t ∙ front) w ∙ sym (same b' c' size front w))
        (omega arith) ws.1 (omega arith) in
    (
      omega arith,
      ap (λ n. take n (copy_all read_from cs (offset + length bytes) b').1) (omega arith)
          ∙ written
          ∙ ap₂ (λ x y. x ++ y) (take-set_at offset bytes b (omega arith)) reads
          ∙ append_assoc (take offset b) bytes later,
      kept ∙ size,
    )
