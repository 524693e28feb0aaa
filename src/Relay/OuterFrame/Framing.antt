-- ===== src/Relay/OuterFrame/Framing.antt =====
-- What `next` of packages/relay-core/src/outer-frame.ts returns, by the buffered bytes alone.
use pherry.Base.{
  ℕ, ◌+◌, ◌≤◌, ◌<◌, ◌≡◌, ap, ◌∙◌, List, ◌++◌, none, some, length, arith, length-append,
  take-length-append, drop-length-append, ◌⊎◌,
}
use pherry.Base.Words.{uint32_be, get_uint32_be, get_uint32_be-uint32_be}
use pherry.Relay.OuterFrame.{
  max_outer_message_bytes, exceeds_maximum, ok, err, OuterFrameReader, peek_uint32_be, take_bytes,
  next,
}
use pherry.Relay.OuterFrame.Reader.{
  content, IsValid, peek_uint32_be-content, take_bytes-content, take_bytes-IsValid,
}

-- The bytes of one frame.
abbrev pub frame : List ℕ → List ℕ
frame payload = uint32_be (length payload) ++ payload

-- A payload that fits the cap.
abbrev pub Fits : List ℕ → Type 0
Fits payload = length payload ≤ max_outer_message_bytes

-- The front of the buffer holds a whole frame: `next` returns its payload and leaves what follows.
pub next-frame :
    (r : OuterFrameReader) (p rest : List ℕ)
    → IsValid r
    → Fits p
    → content r ≡ frame p ++ rest
    → (r' : OuterFrameReader) × (next r ≡ ok (some p, r')) × (content r' ≡ rest) × IsValid r'
unfolding next
next-frame r p rest v fits e =
    let size : r.buffered ≡ 4 + length p + length rest =
      omega (arith, v.counted, ap length e, length-append p rest) in
    let announced : peek_uint32_be r ≡ length p =
      peek_uint32_be-content r v (omega arith) ∙ rw e (get_uint32_be-uint32_be _ (omega arith)) in
    let (_, left, count) = take_bytes-content 4 r v (omega arith) in
    let v' = take_bytes-IsValid 4 r v (omega arith) in
    let body = rw e at left in
    let (out, left', _) = take_bytes-content (length p) (take_bytes 4 r).1 v' (omega arith) in
    (
      (take_bytes (length p) (take_bytes 4 r).1).1,
      rw announced (ground (arith, rw (body, take-length-append p rest) at out)),
      left' ∙ rw body (drop-length-append p rest),
      take_bytes-IsValid (length p) _ v' (omega arith),
    )

-- Fewer than four bytes, or fewer than the prefix announces.
abbrev pub IsIncomplete : List ℕ → Type 0
IsIncomplete bytes =
    (length bytes < 4)
    ⊎ ((get_uint32_be bytes ≤ max_outer_message_bytes) × (length bytes < 4 + get_uint32_be bytes))

-- An incomplete frame: `next` waits, and changes nothing.
pub next_waits :
    (r : OuterFrameReader) → IsValid r → IsIncomplete (content r) → next r ≡ ok (none, r)
unfolding next
next_waits r v h = ground (arith, peek_uint32_be-content r v)

-- A prefix over the cap is refused as soon as its four bytes are there.
pub next_refuses :
    (r : OuterFrameReader)
    → IsValid r
    → 4 ≤ length (content r)
    → max_outer_message_bytes < get_uint32_be (content r)
    → next r ≡ err (exceeds_maximum (get_uint32_be (content r)))
unfolding next
next_refuses r v four over = ground (arith, peek_uint32_be-content r v)
