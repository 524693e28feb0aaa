-- ===== src/Relay/Connection/Framed.antt =====
-- The framed phase of `OuterConnection` (packages/relay-core/src/outer-frame.ts): messages survive
-- any split of the byte stream.
use pherry.Base.{
  Option, ℕ, zero, suc, ◌+◌, ◌≤◌, ◌<◌, ◌≡◌, refl, sym, ap, subst, ◌∙◌, Bool, true, false, List, [],
  ◌∷◌, ◌++◌, none, some, length, flatten, arith, map, dec_lt, length-append, append-nil,
  append_assoc, All, inl, inr,
}
use pherry.Base.Words.{IsByte, get_uint32_be, get_uint32_be-uint32_be}
use pherry.Relay.OuterFrame.{ok, OuterFrameReader, push, next}
use pherry.Relay.OuterFrame.Reader.{content, IsValid, push-content, push-IsValid, four_bytes}
use pherry.Relay.OuterFrame.Framing.{frame, Fits, next-frame, next_waits, IsIncomplete}
use pherry.Relay.Connection.{
  OuterConnection, ConnectionError, handled-none, receive_round, receive_loop, receive, receive_all,
}

-- The bytes of a run of frames.
abbrev pub frames : List (List ℕ) → List ℕ
frames ps = flatten (map frame ps)

pub split_append :
    (a x f b : List ℕ)
    → x ++ f ≡ a ++ b
    → length a ≤ length x
    → (x' : List ℕ) × (x ≡ a ++ x') × (x' ++ f ≡ b)
split_append [] x f b e h = (x, refl, e)
split_append (k ∷ a) [] f b e h = absurd (omega arith)
split_append (k ∷ a) (j ∷ x) f b e h =
    let (x', front, back) = split_append a x f b (cc) (omega arith) in (x', cc, back)

get_uint32_be-append : (x f : List ℕ) → 4 ≤ length x → get_uint32_be (x ++ f) ≡ get_uint32_be x
get_uint32_be-append x f =
    four_bytes (λ xs. get_uint32_be (xs ++ f) ≡ get_uint32_be xs) (λ a b c d rest. refl) x

-- Short of the next whole frame, the buffer is incomplete.
pub cut_frame-IsIncomplete :
    (x f p rest : List ℕ)
    → x ++ f ≡ frame p ++ rest
    → Fits p
    → length x < 4 + length p
    → IsIncomplete x
cut_frame-IsIncomplete x f p rest e fits short = elim (dec_lt (length x) 4) [
  | yes few ↦ inl few
  | no many ↦
      let announced : get_uint32_be x ≡ length p =
        sym (get_uint32_be-append x f (omega arith))
        ∙ ap get_uint32_be e
        ∙ get_uint32_be-uint32_be (length p) (omega arith) in
      inr (omega arith, omega arith)
]

-- A front of an incomplete buffer is incomplete.
prefix-IsIncomplete : (x f : List ℕ) → IsIncomplete (x ++ f) → IsIncomplete x
prefix-IsIncomplete x f h = elim (dec_lt (length x) 4) [
  | yes few ↦ inl few
  | no many ↦ ground (arith, length-append x f, get_uint32_be-append x f)
]

-- A whole frame at the front is not incomplete.
pub frame_complete : (p rest : List ℕ) → Fits p → ¬ IsIncomplete (frame p ++ rest)
frame_complete p rest fits h =
    ground (arith, get_uint32_be-uint32_be (length p), length-append p rest)

-- The connection is in its framed phase, and what is buffered and what is still to come (`future`)
-- are the frames of `ps` and then `tail`.
pub record Expects (c : OuterConnection) (future : List ℕ) (ps : List (List ℕ)) (tail : List ℕ)
    : Type 0 where
  pub valid : IsValid c.reader
  pub framed : c.raw ≡ false
  pub alive : c.closed ≡ false
  pub stream : content c.reader ++ future ≡ frames ps ++ tail

-- A chunk goes from what is to come to what is buffered.
pub push-Expects :
    (c : OuterConnection) (chunk future : List ℕ) (ps : List (List ℕ)) (tail : List ℕ)
    → All IsByte chunk
    → Expects c (chunk ++ future) ps tail
    → Expects (record c { reader = push c.reader chunk }) future ps tail
push-Expects c chunk future ps tail b x = record {
  valid = push-IsValid c.reader chunk x.valid b;
  framed = x.framed;
  alive = x.alive;
  stream = rw (push-content c.reader chunk, append_assoc (content c.reader) chunk future) x.stream;
}

module _ (decodes : List ℕ → Bool)
    (on_message : List ℕ → OuterConnection → OuterConnection × Option ℕ)
    (on_error : ConnectionError → OuterConnection → OuterConnection) where
  -- A payload within the cap that decodes, and whose handler does not throw and leaves the phase, the buffer, the
  -- payload log and the open state of the connection alone.
  pub record IsQuiet (p : List ℕ) : Type 0 where
    pub fits : Fits p
    pub decoded : decodes p ≡ true
    pub same_reader : (c : OuterConnection) → (on_message p c).0.reader ≡ c.reader
    pub same_raw : (c : OuterConnection) → (on_message p c).0.raw ≡ c.raw
    pub same_closed : (c : OuterConnection) → (on_message p c).0.closed ≡ c.closed
    pub same_payloads : (c : OuterConnection) → (on_message p c).0.payloads ≡ c.payloads
    pub returns : (c : OuterConnection) → (on_message p c).1 ≡ none

  abbrev pub round : OuterConnection → OuterConnection × Bool
  round = receive_round decodes on_message on_error

  pub round-some :
      (c : OuterConnection) (p : List ℕ) (reader : OuterFrameReader)
      → next c.reader ≡ ok (some p, reader)
      → decodes p ≡ true
      → let r = on_message p (record c { reader = reader; payloads = c.payloads ++ p ∷ [] }) in
        r.1 ≡ none → round c ≡ (r.0, true)
  unfolding receive_round
  round-some c p reader e d returns = rw (e, receive_round) (rw d (handled-none on_error _ returns))

  round-none : (c : OuterConnection) → next c.reader ≡ ok (none, c.reader) → round c ≡ (c, false)
  unfolding receive_round
  round-none c e = rw (e, receive_round)

  -- A round on a whole quiet frame hands its payload over and goes on behind it.
  round-frame :
      (c : OuterConnection) (future : List ℕ) (p : List ℕ) (ps : List (List ℕ)) (tail : List ℕ)
      → IsQuiet p
      → Expects c future (p ∷ ps) tail
      → 4 + length p ≤ length (content c.reader)
      → Expects (round c).0 future ps tail
        × ((round c).0.payloads ≡ c.payloads ++ p ∷ [])
        × ((round c).1 ≡ true)
        × (length (content (round c).0.reader) < length (content c.reader))
  round-frame c future p ps tail q x whole =
      let (rest, front, back) =
        split_append (frame p) (content c.reader) future (frames ps ++ tail)
          (x.stream ∙ append_assoc (frame p) (frames ps) tail) (omega arith) in
      let (reader, e, left, valid) = next-frame c.reader p rest x.valid q.fits front in
      let c' : OuterConnection = record c { reader = reader; payloads = c.payloads ++ p ∷ [] } in
      let same : (on_message p c').0.reader ≡ reader = q.same_reader c' in
      rw (round-some c p reader e q.decoded (q.returns c')) (
        record {
          valid = rw same valid;
          framed = q.same_raw c' ∙ x.framed;
          alive = q.same_closed c' ∙ x.alive;
          stream = rw (same, left) back;
        },
        q.same_payloads c',
        refl,
        rw (same, left) (omega (arith, ap length front, length-append p rest)),
      )

  abbrev pub loop : ℕ → OuterConnection → OuterConnection
  loop = receive_loop decodes on_message on_error

  pub loop_go :
      (fuel : ℕ) (c : OuterConnection)
      → c.raw ≡ false
      → (round c).1 ≡ true
      → loop (suc fuel) c ≡ loop fuel (round c).0
  unfolding receive_loop
  loop_go fuel c framed more = simp (framed, more)

  -- With nothing whole in the buffer the loop leaves the connection as it is.
  pub loop_stop :
      (fuel : ℕ) (c : OuterConnection)
      → IsValid c.reader
      → c.raw ≡ false
      → IsIncomplete (content c.reader)
      → loop (suc fuel) c ≡ c
  unfolding receive_loop
  loop_stop fuel c valid framed part = rw (round-none c (next_waits c.reader valid part), framed)

  -- What the loop leaves: it has handed over a front of the payloads, and waits for the rest.
  pub record Progress (before : List (List ℕ)) (c' : OuterConnection) (future : List ℕ)
      (ps : List (List ℕ)) (tail : List ℕ) : Type 0 where
    pub left : List (List ℕ)
    pub expects : Expects c' future left tail
    pub handed : c'.payloads ++ left ≡ before ++ ps
    pub part : IsIncomplete (content c'.reader)
    pub quiet : All IsQuiet left

  -- With fuel above the number of buffered bytes the loop ends at an incomplete frame.
  pub loop-Progress :
      (fuel : ℕ) (c : OuterConnection) (future : List ℕ) (ps : List (List ℕ)) (tail : List ℕ)
      → All IsQuiet ps
      → IsIncomplete tail
      → Expects c future ps tail
      → length (content c.reader) < fuel
      → Progress c.payloads (loop fuel c) future ps tail
  loop-Progress zero c future ps tail q t x h = absurd (omega arith)
  loop-Progress (suc fuel) c future [] tail q t x h =
      let part : IsIncomplete (content c.reader) =
        prefix-IsIncomplete (content c.reader) future (rw x.stream t) in
      rw (loop_stop fuel c x.valid x.framed part)
        (record { left = []; expects = x; handed = refl; part = part; quiet = tt })
  loop-Progress (suc fuel) c future (p ∷ ps) tail q t x h =
      elim (dec_lt (length (content c.reader)) (4 + length p)) [
        | yes short ↦
            let part : IsIncomplete (content c.reader) =
              cut_frame-IsIncomplete (content c.reader) future p (frames ps ++ tail)
                (x.stream ∙ append_assoc (frame p) (frames ps) tail) q.0.fits short in
            rw (loop_stop fuel c x.valid x.framed part)
              (record { left = p ∷ ps; expects = x; handed = refl; part = part; quiet = q })
        | no whole ↦
            let (x', handed, more, fewer) = round-frame c future p ps tail q.0 x (omega arith) in
            let rest = loop-Progress fuel (round c).0 future ps tail q.1 t x' (omega arith) in
            rw (loop_go fuel c x.framed more) (record {
              left = rest.left;
              expects = rest.expects;
              handed =
                  rest.handed
                  ∙ ap (λ (l : List (List ℕ)). l ++ ps) handed
                  ∙ append_assoc c.payloads (p ∷ []) ps;
              part = rest.part;
              quiet = rest.quiet;
            })
      ]

  pub receive_open :
      (c : OuterConnection) (chunk : List ℕ)
      → c.closed ≡ false
      → c.raw ≡ false
      → receive decodes on_message on_error chunk c
        ≡ loop (suc (push c.reader chunk).buffered) (record c { reader = push c.reader chunk })
  unfolding receive
  receive_open c chunk alive framed = simp (alive, framed)

  -- One chunk of the stream.
  receive-Progress :
      (c : OuterConnection) (chunk future : List ℕ) (ps : List (List ℕ)) (tail : List ℕ)
      → All IsByte chunk
      → All IsQuiet ps
      → IsIncomplete tail
      → Expects c (chunk ++ future) ps tail
      → Progress c.payloads (receive decodes on_message on_error chunk c) future ps tail
  receive-Progress c chunk future ps tail bytes q t x =
      let x' = push-Expects c chunk future ps tail bytes x in
      rw (receive_open c chunk x.alive x.framed) (
        loop-Progress (suc (push c.reader chunk).buffered)
          (record c { reader = push c.reader chunk }) future ps tail q t x'
          (omega (arith, x'.valid.counted)))

  receive_all-Progress :
      (chunks : List (List ℕ)) (c : OuterConnection) (ps : List (List ℕ)) (tail : List ℕ)
      → All (All IsByte) chunks
      → All IsQuiet ps
      → IsIncomplete tail
      → IsIncomplete (content c.reader)
      → Expects c (flatten chunks) ps tail
      → Progress c.payloads (receive_all decodes on_message on_error chunks c) [] ps tail
  unfolding receive_all
  receive_all-Progress [] c ps tail b q t part x = record {
    left = ps;
    expects = x;
    handed = refl;
    part = part;
    quiet = q;
  }
  receive_all-Progress (chunk ∷ chunks) c ps tail b q t part x =
      let one = receive-Progress c chunk (flatten chunks) ps tail b.0 q t x in
      let rest =
        receive_all-Progress chunks (receive decodes on_message on_error chunk c) one.left tail b.1
          one.quiet t one.part one.expects in
      record {
        left = rest.left;
        expects = rest.expects;
        handed = rest.handed ∙ one.handed;
        part = rest.part;
        quiet = rest.quiet;
      }

  nothing_left :
      (c : OuterConnection) (ps : List (List ℕ)) (tail : List ℕ)
      → All IsQuiet ps
      → IsIncomplete (content c.reader)
      → Expects c [] ps tail
      → (ps ≡ []) × (content c.reader ≡ tail)
  nothing_left c [] tail q part x = (refl, sym (append-nil _) ∙ x.stream)
  nothing_left c (p ∷ ps) tail q part x = absurd (
      frame_complete p (frames ps ++ tail) q.0.fits (
        subst IsIncomplete (sym (append-nil _) ∙ x.stream ∙ append_assoc (frame p) (frames ps) tail)
          part))

  -- However a stream of quiet frames and an incomplete tail is cut into chunks, the connection hands
  -- over exactly the payloads, in order, keeps the tail buffered and stays open and framed.
  pub receive_all-frames :
      (c : OuterConnection) (ps chunks : List (List ℕ)) (tail : List ℕ)
      → IsValid c.reader
      → content c.reader ≡ []
      → c.raw ≡ false
      → c.closed ≡ false
      → All (All IsByte) chunks
      → All IsQuiet ps
      → IsIncomplete tail
      → flatten chunks ≡ frames ps ++ tail
      → let c' = receive_all decodes on_message on_error chunks c in
        (c'.payloads ≡ c.payloads ++ ps)
        × (content c'.reader ≡ tail)
        × (c'.raw ≡ false)
        × (c'.closed ≡ false)
  receive_all-frames c ps chunks tail valid fresh framed alive b q t stream =
      let all =
        receive_all-Progress chunks c ps tail b q t (rw fresh (inl (omega arith)))
          (record { valid = valid; framed = framed; alive = alive; stream = rw fresh stream }) in
      let (none_left, rest) = nothing_left _ all.left tail all.quiet all.part all.expects in
      (sym (append-nil _) ∙ rw none_left at all.handed, rest, all.expects.framed, all.expects.alive)
