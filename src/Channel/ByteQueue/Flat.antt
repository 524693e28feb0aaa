-- ===== src/Channel/ByteQueue/Flat.antt =====
-- packages/channel/src/byte-queue.ts: seen from outside, the queue is a plain list of bytes.
use pherry.Base.{
  ℕ, ◌≡◌, refl, sym, ap, ap₂, ◌∙◌, List, [], ◌∷◌, ◌++◌, leb, if◌then◌else◌, length, take, drop,
  if_elim, arith,
}
use pherry.Channel.ByteQueue.{ByteQueue, empty_queue, push, take_bytes}
use pherry.Channel.ByteQueue.Content.{content, IsValid, content-push}
use pherry.Channel.ByteQueue.Take.{content-take_bytes}

-- A push, or a take of bytes.
pub data Operation : Type 0 where
  pushed : List ℕ → Operation
  taken : ℕ → Operation

-- What the takes give, each where the queue has the bytes, as its callers see to.
abbrev pub outputs : List Operation → ByteQueue → List (List ℕ)
outputs [] q = []
outputs (pushed bytes ∷ ops) q = outputs ops (push bytes q)
outputs (taken n ∷ ops) q =
    let rest = outputs ops (take_bytes n q).1 in
    let skipped = outputs ops q in
    if leb n q.byte_length then (take_bytes n q).0 ∷ rest else skipped

-- The same on a list of bytes.
abbrev pub flat_outputs : List Operation → List ℕ → List (List ℕ)
flat_outputs [] xs = []
flat_outputs (pushed bytes ∷ ops) xs = flat_outputs ops (xs ++ bytes)
flat_outputs (taken n ∷ ops) xs =
    let rest = flat_outputs ops (drop n xs) in
    let skipped = flat_outputs ops xs in if leb n (length xs) then take n xs ∷ rest else skipped

outputs-content :
    (ops : List Operation) (q : ByteQueue)
    → IsValid q
    → outputs ops q ≡ flat_outputs ops (content q)
outputs-content [] q v = refl
outputs-content (pushed bytes ∷ ops) q v =
    let (same, valid) = content-push bytes q v in
    outputs-content ops (push bytes q) valid ∙ ap (flat_outputs ops) same
outputs-content (taken n ∷ ops) q v =
    let flat = flat_outputs (taken n ∷ ops) (content q) in
    let there : leb n q.byte_length ≡ leb n (length (content q)) = ap (leb n) v.counted in
    if_elim (λ r. r ≡ flat) (leb n q.byte_length) _ _
      (λ t.
        let (out, rest, valid) = content-take_bytes n q v (ground arith) in
        ap₂ (λ x xs. x ∷ xs) out
          (outputs-content ops (take_bytes n q).1 valid ∙ ap (flat_outputs ops) rest)
        ∙ ap
            (λ b.
              if b
              then take n (content q) ∷ flat_outputs ops (drop n (content q))
              else flat_outputs ops (content q))
            (sym t ∙ there))
      (λ t.
        outputs-content ops q v
        ∙ ap
            (λ b.
              if b
              then take n (content q) ∷ flat_outputs ops (drop n (content q))
              else flat_outputs ops (content q))
            (sym t ∙ there))

-- A queue that starts empty gives what a list of bytes gives, wherever chunks end and whenever they are
-- coalesced, in place or not.
pub outputs-empty_queue : (ops : List Operation) → outputs ops empty_queue ≡ flat_outputs ops []
unfolding content
outputs-empty_queue ops =
    outputs-content ops empty_queue
      (record { counted = refl; within = tt; room = omega arith; few = omega arith })
