-- ===== src/Channel/ByteQueue/Take.antt =====
-- packages/channel/src/byte-queue.ts: what is taken is the front of the content, and what is peeked its first four
-- bytes.
use pherry.Base.{
  ℕ, zero, suc, ◌+◌, ◌-◌, ◌*◌, ◌≤◌, ◌<◌, ◌≡◌, refl, sym, ap, ◌∙◌, List, [], ◌∷◌, ◌++◌, leb, ◌==◌,
  length, take, drop, replicate, map, flatten, All, arith, if_elim, append-nil, length-append,
  length-take, length-drop, take-append_le, take-append_ge, drop-append_le, drop-append_ge,
  drop-drop, drop-take,
}
use pherry.Channel.ByteQueue.{
  Chunk, own, view, ByteQueue, buffer, read, chunk_length, cut, take_chunks, settle, take_bytes,
  coalesce_threshold,
}
use pherry.Channel.ByteQueue.Splice.{Within, length-read}
use pherry.Base.Words.{IsByte, to_uint32, get_uint32_be}
use pherry.Channel.ByteQueue.{peek_chunk, peek_chunks, peek_uint32_be}
use pherry.Channel.ByteQueue.Content.{bytes_of, content, IsValid}

cut_lem :
    (used : ℕ) (b : List ℕ) (n : ℕ) (c : Chunk)
    → used ≤ length b
    → Within used c
    → n < chunk_length c
    → (read b (cut n c) ≡ drop n (read b c)) × Within used (cut n c)
unfolding cut read chunk_length
cut_lem used b n (own bytes) room w h = (refl, omega (arith, length-drop n bytes))
cut_lem used b n (view start len) room w h =
    (sym (drop-take n len (drop start b) ∙ ap (take (len - n)) (drop-drop n start b)), omega arith)

-- The loop of `take` splits the bytes of the chunks where nothing is missing.
abbrev Splits : ℕ → List ℕ → ℕ → List Chunk → List ℕ × List Chunk → Type 0
Splits used b n cs r =
    (r.0 ≡ take n (bytes_of b cs))
    × (bytes_of b r.1 ≡ drop n (bytes_of b cs))
    × All (Within used) r.1
    × (length r.1 ≤ length cs)

take_chunks-Splits :
    (used : ℕ) (b : List ℕ) (n : ℕ) (cs : List Chunk)
    → used ≤ length b
    → All (Within used) cs
    → n ≤ length (bytes_of b cs)
    → Splits used b n cs (take_chunks b n cs)
unfolding take_chunks
take_chunks-Splits used b n [] room ws h =
    let none_left : 0 ≡ n = omega arith in
    (ap (λ k. take k []) none_left, ap (λ k. drop k []) none_left, tt, omega arith)
take_chunks-Splits used b n (c ∷ cs) room ws h =
    let x = read b c in
    let later = bytes_of b cs in
    let size = length-read used b c room ws.0 in
    let both = length-append x later in
    if_elim (Splits used b n (c ∷ cs)) (n == 0) _ _
      (λ e.
        let nothing : 0 ≡ n = ground arith in
        (
          ap (λ k. take k (x ++ later)) nothing,
          ap (λ k. drop k (x ++ later)) nothing,
          ws,
          omega arith,
        ))
      (λ e.
        if_elim (Splits used b n (c ∷ cs)) (leb (chunk_length c) n) _ _
          (λ t.
            let whole : length x ≤ n = ground arith in
            let left : n - chunk_length c ≡ n - length x = omega arith in
            let (out, rest, within, fewer) =
              take_chunks-Splits used b (n - chunk_length c) cs room ws.1 (omega arith) in
            (
              ap (λ y. x ++ y) (out ∙ ap (λ k. take k later) left)
                  ∙ sym (take-append_ge n x later whole),
              rest ∙ ap (λ k. drop k later) left ∙ sym (drop-append_ge n x later whole),
              within,
              omega arith,
            ))
          (λ t.
            let part : n < chunk_length c = ground arith in
            let (reads, inside) = cut_lem used b n c room ws.0 part in
            (
              sym (take-append_le n x later (omega arith)),
              ap (λ y. y ++ later) reads ∙ sym (drop-append_le n x later (omega arith)),
              (inside, ws.1),
              omega arith,
            )))

settle_lem :
    (cs : List Chunk) (filled : ℕ) (q : ByteQueue)
    → q.byte_length ≡ filled + length (bytes_of (buffer q.backing) cs)
    → All (Within q.backing_used) cs
    → q.backing_used ≤ length (buffer q.backing)
    → length cs ≤ coalesce_threshold
    → (content (settle cs filled q) ≡ bytes_of (buffer q.backing) cs) × IsValid (settle cs filled q)
unfolding settle content
settle_lem [] filled q counted within room few =
    (refl, record { counted = omega arith; within = tt; room = omega arith; few = omega arith })
settle_lem (c ∷ cs) filled q counted within room few =
    (refl, record { counted = omega arith; within = within; room = room; few = few })

-- Of a well-formed queue, as many bytes as it has or fewer are taken from the front, and the rest stays.
pub content-take_bytes :
    (n : ℕ) (q : ByteQueue)
    → IsValid q
    → n ≤ q.byte_length
    → ((take_bytes n q).0 ≡ take n (content q))
      × (content (take_bytes n q).1 ≡ drop n (content q))
      × IsValid (take_bytes n q).1
unfolding take_bytes content
content-take_bytes n q v h =
    let b = buffer q.backing in
    let counted = v.counted in
    let (out, rest, within, fewer) =
      take_chunks-Splits q.backing_used b n q.chunks v.room v.within (omega arith) in
    let r = take_chunks b n q.chunks in
    let filled = ap length out in
    let front = length-take n (bytes_of b q.chunks) in
    let left = ap length rest in
    let behind = length-drop n (bytes_of b q.chunks) in
    let exact : n - length r.0 ≡ 0 = omega arith in
    let few = v.few in
    let (same, valid) = settle_lem r.1 (length r.0) q (omega arith) within v.room (omega arith) in
    (ap (λ k. r.0 ++ replicate k 0) exact ∙ append-nil r.0 ∙ out, same ∙ rest, valid)

peek_chunk-append :
    (value left : ℕ) (xs ys : List ℕ)
    → peek_chunk value left (xs ++ ys)
      ≡ peek_chunk (peek_chunk value left xs).0 (peek_chunk value left xs).1 ys
unfolding peek_chunk
peek_chunk-append value zero xs ys = refl
peek_chunk-append value (suc left) [] ys = refl
peek_chunk-append value (suc left) (x ∷ xs) ys = peek_chunk-append (value * 256 + x) left xs ys

peek_chunks_lem :
    (value left : ℕ) (cs : List (List ℕ))
    → peek_chunks value left cs ≡ (peek_chunk value left (flatten cs)).0
unfolding peek_chunks peek_chunk
peek_chunks_lem value zero [] = refl
peek_chunks_lem value (suc left) [] = refl
peek_chunks_lem value left (c ∷ cs) =
    peek_chunks_lem (peek_chunk value left c).0 (peek_chunk value left c).1 cs
    ∙ ap (λ (r : ℕ × ℕ). r.0) (sym (peek_chunk-append value left c (flatten cs)))

-- The four bytes that are peeked are the first of the content, wherever the chunks split them.
pub peek_uint32_be-content :
    (q : ByteQueue) (x y z w : ℕ) (rest : List ℕ)
    → content q ≡ x ∷ y ∷ z ∷ w ∷ rest
    → All IsByte (x ∷ y ∷ z ∷ w ∷ [])
    → peek_uint32_be q ≡ get_uint32_be (x ∷ y ∷ z ∷ w ∷ rest)
unfolding peek_uint32_be content peek_chunk
peek_uint32_be-content q x y z w rest e bytes =
    ap to_uint32 (
      peek_chunks_lem 0 4 (map (read (buffer q.backing)) q.chunks)
      ∙ ap (λ xs. (peek_chunk 0 4 xs).0) e)
    ∙ omega arith
