-- ===== src/Channel/ByteQueue/Content.antt =====
-- packages/channel/src/byte-queue.ts: the queue holds the bytes that were pushed and not yet taken, in order, in
-- few chunks.
use pherry.Base.{
  ℕ, ◌+◌, ◌-◌, ◌*◌, ◌≤◌, ◌≡◌, refl, sym, ap, subst, ap₂, ◌∙◌, List, [], ◌∷◌, ◌++◌, Option, none,
  some, ltb, ◌==◌, length, take, drop, replicate, map, flatten, All, All-append, arith, if_elim,
  append-nil, append_assoc, length-append, length-take, length-drop, length-replicate,
  drop-append_le, take-drop_within, take-length,
}
use pherry.Channel.ByteQueue.{
  Chunk, own, view, ByteQueue, buffer, read, copy_all, append_in_place, reallocate, coalesce_from,
  coalesce, push, coalesce_threshold,
}
use pherry.Channel.ByteQueue.Splice.{Within, read_prefix, copy_all_writes}

-- The bytes of chunks over a buffer.
abbrev pub bytes_of : List ℕ → List Chunk → List ℕ
bytes_of b cs = flatten (map (read b) cs)

-- The bytes that are pushed and not yet taken.
unfoldable pub content : ByteQueue → List ℕ
content q = bytes_of (buffer q.backing) q.chunks

-- The chunks hold bytes, and views lie within what is used of the buffer; the length is counted, and the chunks
-- are few.
pub record IsValid (q : ByteQueue) : Type 0 where
  pub counted : q.byte_length ≡ length (content q)
  pub within : All (Within q.backing_used) q.chunks
  pub room : q.backing_used ≤ length (buffer q.backing)
  pub few : length q.chunks ≤ coalesce_threshold

bytes_of-append :
    (b : List ℕ) (cs : List Chunk) (bytes : List ℕ)
    → bytes_of b (cs ++ own bytes ∷ []) ≡ bytes_of b cs ++ bytes
unfolding read
bytes_of-append b [] bytes = append-nil bytes
bytes_of-append b (c ∷ cs) bytes =
    ap (λ xs. read b c ++ xs) (bytes_of-append b cs bytes)
    ∙ sym (append_assoc (read b c) (bytes_of b cs) bytes)

-- A copy into a fresh buffer.
reallocate_lem :
    (q : ByteQueue)
    → q.byte_length ≡ length (content q)
    → All (Within q.backing_used) q.chunks
    → 1 ≤ q.byte_length
    → (content (reallocate q) ≡ content q) × IsValid (reallocate q)
unfolding reallocate content read
reallocate_lem q counted within some_bytes =
    let b = buffer q.backing in
    let fresh : List ℕ = replicate (q.byte_length * 2) 0 in
    let cells : length fresh ≡ q.byte_length * 2 = length-replicate (q.byte_length * 2) 0 in
    let (offset, written, kept) =
      copy_all_writes (Within q.backing_used) (λ _. read b) 0 q.chunks 0 fresh (λ b' c e t w. refl)
        (omega arith) within (omega arith) in
    let r = copy_all (λ _. read b) q.chunks 0 fresh in
    let same : take r.0 r.1 ++ [] ≡ bytes_of b q.chunks =
      append-nil (take r.0 r.1) ∙ ap (λ n. take n r.1) offset ∙ written in
    (
      same,
      record {
        counted = counted ∙ ap length (sym same);
        within = ((omega arith, omega arith), tt);
        room = omega arith;
        few = omega arith;
      },
    )

-- A copy into the slack of the buffer, behind a view that ends where the slack begins.
append_in_place_lem :
    (q : ByteQueue) (b : List ℕ) (start len : ℕ) (rest : List Chunk)
    → q.backing ≡ some b
    → q.chunks ≡ view start len ∷ rest
    → q.byte_length ≡ length (content q)
    → All (Within q.backing_used) q.chunks
    → q.backing_used ≤ length b
    → start + len ≡ q.backing_used
    → q.byte_length + q.backing_used ≤ length b + len
    → (content (append_in_place b start rest q) ≡ content q)
      × IsValid (append_in_place b start rest q)
unfolding append_in_place content read
append_in_place_lem q b start len rest eb ec counted within room ends slack =
    let F = bytes_of b rest in
    let X = drop start (take q.backing_used b) in
    let ws : All (Within q.backing_used) (view start len ∷ rest) =
      subst (All (Within q.backing_used)) ec within in
    let prefix = length-take q.backing_used b in
    let view_size = length-drop start (take q.backing_used b) in
    let size : len ≡ length X = omega arith in
    let head : take len (drop start b) ≡ X =
      take-drop_within start len q.backing_used b (omega arith) room
      ∙ ap (λ n. take n X) size
      ∙ take-length X in
    let whole : content q ≡ X ++ F =
      ap₂ (λ (o : Option (List ℕ)) cs. bytes_of (buffer o) cs) eb ec ∙ ap (λ xs. xs ++ F) head in
    let sizes = length-append X F in
    let total = ap length whole in
    let (offset, written, kept) =
      copy_all_writes (Within q.backing_used) read q.backing_used rest q.backing_used b
        (λ b' c e t w. read_prefix q.backing_used b' b c (omega arith) room t w) (omega arith) ws.1
        (omega arith) in
    let r = copy_all read rest q.backing_used b in
    let all : r.0 - start ≡ length (X ++ F) = omega arith in
    let same : take (r.0 - start) (drop start r.1) ++ [] ≡ content q =
      append-nil (take (r.0 - start) (drop start r.1))
      ∙ take-drop_within start (r.0 - start) (q.backing_used + length F) r.1 (omega arith)
          (omega arith)
      ∙ ap (λ xs. take (r.0 - start) (drop start xs)) written
      ∙ ap (take (r.0 - start)) (drop-append_le start (take q.backing_used b) F (omega arith))
      ∙ ap (λ n. take n (X ++ F)) all
      ∙ take-length (X ++ F)
      ∙ sym whole in
    (
      same,
      record {
        counted = counted ∙ ap length (sym same);
        within = ((omega arith, omega arith), tt);
        room = omega arith;
        few = omega arith;
      },
    )

coalesce_from_lem :
    (backing : Option (List ℕ)) (chunks : List Chunk) (q : ByteQueue)
    → q.backing ≡ backing
    → q.chunks ≡ chunks
    → q.byte_length ≡ length (content q)
    → All (Within q.backing_used) q.chunks
    → q.backing_used ≤ length (buffer q.backing)
    → 1 ≤ q.byte_length
    → (content (coalesce_from backing chunks q) ≡ content q)
      × IsValid (coalesce_from backing chunks q)
unfolding coalesce_from
coalesce_from_lem (some b) (view start len ∷ rest) q eb ec counted within room some_bytes =
    if_elim (λ r. (content r ≡ content q) × IsValid r) _ _ _
      (λ t.
        append_in_place_lem q b start len rest eb ec counted within
          (subst (λ (o : Option (List ℕ)). q.backing_used ≤ length (buffer o)) eb room)
          (ground arith) (ground arith))
      (λ t. reallocate_lem q counted within some_bytes)
coalesce_from_lem (some b) (own bytes ∷ rest) q eb ec counted within room some_bytes =
    reallocate_lem q counted within some_bytes
coalesce_from_lem (some b) [] q eb ec counted within room some_bytes =
    reallocate_lem q counted within some_bytes
coalesce_from_lem none chunks q eb ec counted within room some_bytes =
    reallocate_lem q counted within some_bytes

grows :
    (q : ByteQueue) (chunk : List ℕ)
    → content (record q {
      chunks = q.chunks ++ own chunk ∷ [];
      byte_length = q.byte_length + length chunk;
    })
      ≡ content q ++ chunk
unfolding content
grows q chunk = bytes_of-append (buffer q.backing) q.chunks chunk

no_bytes : (xs : List ℕ) → length xs ≡ 0 → xs ≡ []
no_bytes [] e = refl
no_bytes (x ∷ xs) e = absurd (omega arith)

-- A chunk that is pushed goes behind the content, and the queue stays well-formed, with at most 256 chunks.
pub content-push :
    (chunk : List ℕ) (q : ByteQueue)
    → IsValid q
    → (content (push chunk q) ≡ content q ++ chunk) × IsValid (push chunk q)
unfolding push coalesce
content-push chunk q v =
    let q' : ByteQueue = record q {
      chunks = q.chunks ++ own chunk ∷ [];
      byte_length = q.byte_length + length chunk;
    } in
    let longer : content q' ≡ content q ++ chunk = grows q chunk in
    let sizes = length-append (content q) chunk in
    let both = ap length longer in
    let counted' : q'.byte_length ≡ length (content q') = omega (arith, v.counted) in
    let P : ByteQueue → Type 0 = λ r. (content r ≡ content q ++ chunk) × IsValid r in
    if_elim P (length chunk == 0) q _
      (λ e. (
        sym (append-nil (content q))
            ∙ ap (λ xs. content q ++ xs) (sym (no_bytes chunk (ground arith))),
        v,
      ))
      (λ e.
        let within' =
          All-append (Within q.backing_used) q.chunks (own chunk ∷ []) v.within
            (ground arith, tt) in
        if_elim P (ltb coalesce_threshold (length q'.chunks)) _ _
          (λ t.
            let (same, valid) =
              coalesce_from_lem q'.backing q'.chunks q' refl refl counted' within' v.room
                (ground arith) in
            (same ∙ longer, valid))
          (λ t. (
            longer,
            record { counted = counted'; within = within'; room = v.room; few = ground arith },
          )))
