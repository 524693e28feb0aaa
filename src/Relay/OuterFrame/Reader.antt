-- ===== src/Relay/OuterFrame/Reader.antt =====
-- The reader of packages/relay-core/src/outer-frame.ts against the flat list of buffered bytes.
use pherry.Base.{
  ℕ, zero, suc, ◌+◌, ◌-◌, ◌*◌, ◌≤◌, ◌≡◌, refl, sym, ◌∙◌, List, [], ◌∷◌, ◌++◌, length, take, drop,
  replicate, flatten, arith, flatten-append, length-append, append-nil, take-append_ge,
  drop-append_ge, take-append_le, drop-append_le, length-take, length-drop, All, take-length,
  drop-length, All-drop, All-append,
}
use native.Mathlib.Nat.{sub_self}
use pherry.Base.Words.{to_uint32, IsByte, get_uint32_be}
use pherry.Relay.OuterFrame.{
  OuterFrameReader, push, Peek, returned, running, peek_chunk, peek_chunks, peek_uint32_be,
  take_loop, take_bytes, drain_remaining, drain_remaining,
}

-- The buffered bytes in arrival order.
abbrev pub content : OuterFrameReader → List ℕ
content r = flatten r.chunks

-- `#length` counts the buffered bytes, and these are bytes.
pub record IsValid (r : OuterFrameReader) : Type 0 where
  pub counted : r.buffered ≡ length (content r)
  pub bytes : All IsByte (content r)

abbrev continue_peek : Peek → List ℕ → Peek
continue_peek (returned v) ys = returned v
continue_peek (running v n) ys = peek_chunk ys v n

abbrev finish : Peek → ℕ
finish (returned v) = v
finish (running v n) = to_uint32 v

peek_chunk-append :
    (xs ys : List ℕ) (v n : ℕ) → peek_chunk (xs ++ ys) v n ≡ continue_peek (peek_chunk xs v n) ys
unfolding peek_chunk
peek_chunk-append [] ys v n = refl
peek_chunk-append (x ∷ xs) ys v n = ground (arith, peek_chunk-append xs ys (v * 256 + x) (n + 1))

peek_chunks-flatten :
    (cs : List (List ℕ)) (v n : ℕ) → peek_chunks cs v n ≡ finish (peek_chunk (flatten cs) v n)
unfolding peek_chunks
peek_chunks-flatten [] v n = unfold peek_chunk in refl
peek_chunks-flatten (c ∷ cs) v n = go (peek_chunk c v n) refl (peek_chunks-flatten cs)
  where
    go :
        (p : Peek)
        → peek_chunk c v n ≡ p
        → ((w m : ℕ) → peek_chunks cs w m ≡ finish (peek_chunk (flatten cs) w m))
        → peek_chunks (c ∷ cs) v n ≡ finish (peek_chunk (c ++ flatten cs) v n)
    go (returned w) e ih = rw (peek_chunk-append c (flatten cs) v n, e, peek_chunks)
    go (running w m) e ih = rw (peek_chunk-append c (flatten cs) v n, e, peek_chunks) (ih w m)

-- Four bytes decide the loop, and they are below 2 ^ 32 as a number.
peek_four :
    (a b c d : ℕ) (rest : List ℕ)
    → All IsByte (a ∷ b ∷ c ∷ d ∷ rest)
    → finish (peek_chunk (a ∷ b ∷ c ∷ d ∷ rest) 0 0) ≡ get_uint32_be (a ∷ b ∷ c ∷ d ∷ rest)
unfolding peek_chunk
peek_four a b c d rest h = omega arith

pub four_bytes :
    (P : List ℕ → Type 0)
    → ((a b c d : ℕ) (rest : List ℕ) → P (a ∷ b ∷ c ∷ d ∷ rest))
    → (xs : List ℕ) → 4 ≤ length xs
    → P xs
four_bytes P p (a ∷ b ∷ c ∷ d ∷ rest) h = p a b c d rest
four_bytes P p [] h = absurd (omega arith)
four_bytes P p (a ∷ []) h = absurd (omega arith)
four_bytes P p (a ∷ b ∷ []) h = absurd (omega arith)
four_bytes P p (a ∷ b ∷ c ∷ []) h = absurd (omega arith)

-- `#peekUint32BE` reads the first four bytes, however the chunks split them.
pub peek_uint32_be-content :
    (r : OuterFrameReader)
    → IsValid r
    → 4 ≤ r.buffered
    → peek_uint32_be r ≡ get_uint32_be (content r)
unfolding peek_uint32_be
peek_uint32_be-content r v h =
    peek_chunks-flatten r.chunks 0 0
    ∙ four_bytes (λ xs. All IsByte xs → finish (peek_chunk xs 0 0) ≡ get_uint32_be xs) peek_four
        (content r) (omega arith) v.bytes

take_loop-flatten :
    (n : ℕ) (cs : List (List ℕ))
    → n ≤ length (flatten cs)
    → ((take_loop n cs).0 ≡ take n (flatten cs))
      × (flatten (take_loop n cs).1 ≡ drop n (flatten cs))
unfolding take_loop
take_loop-flatten zero [] h = (refl, refl)
take_loop-flatten (suc n) [] h = (refl, refl)
take_loop-flatten zero (c ∷ cs) h = (refl, refl)
take_loop-flatten (suc n) (c ∷ cs) h = ground (
  arith,
  length-append c (flatten cs),
  take-append_ge (suc n) c (flatten cs),
  drop-append_ge (suc n) c (flatten cs),
  take-append_le (suc n) c (flatten cs),
  drop-append_le (suc n) c (flatten cs),
  take_loop-flatten (suc n - length c) cs,
)

pad_full : (n : ℕ) (xs : List ℕ) → length xs ≡ n → xs ++ replicate (n - length xs) 0 ≡ xs
pad_full n xs h = rw (h, sub_self n) (append-nil xs)

-- `#take` of bytes that are there splits them off the front and keeps the count right.
pub take_bytes-content :
    (n : ℕ) (r : OuterFrameReader)
    → IsValid r
    → n ≤ r.buffered
    → ((take_bytes n r).0 ≡ take n (content r))
      × (content (take_bytes n r).1 ≡ drop n (content r))
      × ((take_bytes n r).1.buffered ≡ r.buffered - n)
unfolding take_bytes
take_bytes-content n r v h =
    let (out, left) = take_loop-flatten n r.chunks (omega arith) in
    let filled : length (take_loop n r.chunks).0 ≡ n =
      rw out (omega (arith, length-take n (content r))) in
    (rw (pad_full n _ filled) out, left, rw filled refl)

pub take_bytes-IsValid :
    (n : ℕ) (r : OuterFrameReader) → IsValid r → n ≤ r.buffered → IsValid (take_bytes n r).1
take_bytes-IsValid n r v h =
    let (_, left, count) = take_bytes-content n r v h in
    record {
      counted = rw (left, count) (omega (arith, length-drop n (content r)));
      bytes = rw left (All-drop IsByte n (content r) v.bytes);
    }

pub push-content : (r : OuterFrameReader) (c : List ℕ) → content (push r c) ≡ content r ++ c
unfolding push
push-content r [] = sym (append-nil (content r))
push-content r (b ∷ c) = ground (arith, flatten-append r.chunks ((b ∷ c) ∷ []), append-nil (b ∷ c))

pub push-IsValid :
    (r : OuterFrameReader) (c : List ℕ) → IsValid r → All IsByte c → IsValid (push r c)
push-IsValid r c v h = record {
  counted = rw (push-content r c, length-append (content r) c) (unfold push in ground arith);
  bytes = rw (push-content r c) (All-append IsByte (content r) c v.bytes h);
}

-- `drainRemaining` returns every buffered byte and leaves none.
pub drain_remaining-content :
    (r : OuterFrameReader)
    → IsValid r
    → ((drain_remaining r).0 ≡ content r) × (content (drain_remaining r).1 ≡ [])
unfolding drain_remaining
drain_remaining-content r v =
    let (out, left, _) = take_bytes-content r.buffered r v (omega arith) in
    (out ∙ rw v.counted (take-length (content r)), left ∙ rw v.counted (drop-length (content r)))
