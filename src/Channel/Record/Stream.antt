-- ===== src/Channel/Record/Stream.antt =====
-- Streams of records of packages/channel/src/record.ts: their order, and their nonces.
use pherry.Base.{
  ℕ, suc, ◌+◌, ◌-◌, ◌/◌, ◌^◌, ◌<◌, ◌≤◌, ◌≡◌, ◌≢◌, refl, sym, ap, ◌∙◌, List, [], ◌∷◌, ◌++◌, Option,
  none, some, Bool, false, ltb, arith, length, drop, Option-cases, Bool-cases, inl, inr, lt→ltb,
  subst, if_elim, ◌⊎◌,
}
use pherry.Base.Words.{uint32_be, to_uint32}
use pherry.Channel.Keys.{constant_time_equal, constant_time_equal→eq}
use pherry.Channel.Record.{
  Primitives, Sealer, Opener, Opened, fails, opens, nonce_for, seal, open_record, redelivered,
  record_tag_equals, tag_bytes, RecordError, decrypt_error, replay_error,
}

append_injective : (p xs ys : List ℕ) → p ++ xs ≡ p ++ ys → xs ≡ ys
append_injective [] xs ys e = e
append_injective (a ∷ p) xs ys e = append_injective p xs ys (cc e)

counter_injective :
    (i j : ℕ)
    → i < 2 ^ 53
    → j < 2 ^ 53
    → uint32_be (i / 2 ^ 32) ++ uint32_be (to_uint32 i)
      ≡ uint32_be (j / 2 ^ 32) ++ uint32_be (to_uint32 j)
    → i ≡ j
counter_injective i j hi hj e = ground arith

-- Different counters that a sealer takes give different nonces under one prefix.
pub nonce_for_injective :
    (prefix : List ℕ) (i j : ℕ)
    → i < 2 ^ 53
    → j < 2 ^ 53
    → nonce_for prefix i ≡ nonce_for prefix j
    → i ≡ j
unfolding nonce_for
nonce_for_injective prefix i j hi hj e = counter_injective i j hi hj (append_injective prefix _ _ e)

-- The tag of a record.
abbrev pub tag_of : List ℕ → List ℕ
tag_of bytes = drop (length bytes - tag_bytes) bytes

module _ (k : Primitives) where
  -- The records that one sealer makes of a list of frames.
  unfoldable pub seal_all : Sealer → List (List ℕ) → List (List ℕ)
  seal_all s [] = []
  seal_all s (frame ∷ frames) = elim (seal k s frame) [
    | none ↦ []
    | some (bytes, s') ↦ let rest = seal_all s' frames in bytes ∷ rest
  ]

  -- The frames that one opener takes out of a list of records, past those on which it throws.
  unfoldable pub open_all : Opener → List (List ℕ) → List (List ℕ)
  open_all o [] = []
  open_all o (bytes ∷ records) =
      let rest = open_all (open_record k o bytes).1 records in
      elim (open_record k o bytes).0 [ fails e ↦ rest | opens frame ↦ frame ∷ rest ]

  -- The two ends of a direction, at one counter.
  pub record Paired (s : Sealer) (o : Opener) : Type 0 where
    pub key : s.key ≡ o.key
    pub nonce_prefix : s.nonce_prefix ≡ o.nonce_prefix
    pub counter : s.counter ≡ o.counter

  pub open_record_cases :
      (o : Opener) (bytes : List ℕ)
      → ((e : RecordError) × (open_record k o bytes ≡ (fails e, o)))
        ⊎ ((frame : List ℕ) × (k.decrypt o.key (nonce_for o.nonce_prefix o.counter) bytes
              ≡ some frame)
            × (open_record k o bytes ≡ (
              opens frame,
              record o { counter = suc o.counter; last_tag = some (tag_of bytes) },
            )))
  unfolding open_record
  open_record_cases o bytes = elim (Bool-cases (redelivered o bytes)) [
    | inl e ↦ inl (replay_error, rw e refl)
    | inr e ↦ elim (Option-cases (k.decrypt o.key (nonce_for o.nonce_prefix o.counter) bytes)) [
      | inl q ↦ inl (decrypt_error, rw e (rw q refl))
      | inr (frame, q) ↦ inr (frame, q, rw e (rw q refl))
    ]
  ]

  seal_safe :
      (s : Sealer) (frame : List ℕ)
      → s.counter < 2 ^ 53
      → seal k s frame
        ≡ some (
          k.encrypt s.key (nonce_for s.nonce_prefix s.counter) frame,
          record s { counter = suc s.counter },
        )
  unfolding seal
  seal_safe s frame h = rw (lt→ltb s.counter (2 ^ 53) h) refl

  pub seal_all_safe :
      (s : Sealer) (frame : List ℕ) (frames : List (List ℕ))
      → s.counter < 2 ^ 53
      → seal_all s (frame ∷ frames)
        ≡ k.encrypt s.key (nonce_for s.nonce_prefix s.counter) frame
          ∷ seal_all (record s { counter = suc s.counter }) frames
  unfolding seal_all
  seal_all_safe s frame frames h = rw (seal_safe s frame h, seal_all) refl

  -- What is left of a stream behind one answer.
  abbrev behind : List (List ℕ) → Opened × Opener → List (List ℕ)
  behind records r = elim r.0 [
    | fails e ↦ open_all r.1 records
    | opens frame ↦ frame ∷ open_all r.1 records
  ]

  pub open_all_fails :
      (o : Opener) (bytes : List ℕ) (records : List (List ℕ)) (e : RecordError)
      → open_record k o bytes ≡ (fails e, o)
      → open_all o (bytes ∷ records) ≡ open_all o records
  unfolding open_all
  open_all_fails o bytes records e q = ap (behind records) q

  pub open_all_opens :
      (o o' : Opener) (bytes : List ℕ) (records : List (List ℕ)) (frame : List ℕ)
      → open_record k o bytes ≡ (opens frame, o')
      → open_all o (bytes ∷ records) ≡ frame ∷ open_all o' records
  unfolding open_all
  open_all_opens o o' bytes records frame q = ap (behind records) q

  -- The records' tags differ each from the one before, as those of different records do but for a
  -- collision.
  unfoldable pub IsFresh : Option (List ℕ) → List (List ℕ) → Type 0
  IsFresh last [] = Unit
  IsFresh last (bytes ∷ records) =
      (last ≢ some (tag_of bytes)) × IsFresh (some (tag_of bytes)) records

  new_tag :
      (o : Opener) (bytes : List ℕ) → o.last_tag ≢ some (tag_of bytes) → redelivered o bytes ≡ false
  unfolding redelivered record_tag_equals
  new_tag o bytes h = elim (Option-cases o.last_tag) [
    | inl e ↦ rw (e, redelivered) refl
    | inr (tag, e) ↦
        rw (e, redelivered)
          (if_elim (λ (b : Bool). b ≡ false) (ltb (length bytes) tag_bytes) _ _ (λ _. refl)
            (λ _. elim (Bool-cases (constant_time_equal (tag_of bytes) tag)) [
              | inl q ↦ absurd (h (e ∙ ap some (sym (constant_time_equal→eq (tag_of bytes) tag q))))
              | inr q ↦ q
            ]))
  ]

  -- If the cipher decrypts what it encrypts, then a paired opener takes out of a sealer's records
  -- exactly the frames, in order, for any frames within the safe counters whose records' tags differ
  -- each from the one before.
  pub seal_all-open_all :
      ((key nonce frame : List ℕ) → k.decrypt key nonce (k.encrypt key nonce frame) ≡ some frame)
      → (frames : List (List ℕ)) (s : Sealer) (o : Opener) → Paired s o
      → s.counter + length frames ≤ 2 ^ 53
      → IsFresh o.last_tag (seal_all s frames)
      → open_all o (seal_all s frames) ≡ frames
  unfolding open_all seal_all IsFresh open_record
  seal_all-open_all inverse [] s o pair h fresh = refl
  seal_all-open_all inverse (frame ∷ frames) s o pair h fresh =
      let bytes = k.encrypt s.key (nonce_for s.nonce_prefix s.counter) frame in
      let s' : Sealer = record s { counter = suc s.counter } in
      let o' : Opener = record o { counter = suc o.counter; last_tag = some (tag_of bytes) } in
      let sealed = seal_all_safe s frame frames (omega arith) in
      let (new, later) = subst (IsFresh o.last_tag) sealed fresh in
      let decrypted : k.decrypt o.key (nonce_for o.nonce_prefix o.counter) bytes ≡ some frame =
        rw (← pair.key, ← pair.nonce_prefix, ← pair.counter) (inverse _ _ frame) in
      let opened : open_record k o bytes ≡ (opens frame, o') =
        rw (new_tag o bytes new) (rw decrypted refl) in
      let rest =
        seal_all-open_all inverse frames s' o'
          (record {
            key = pair.key;
            nonce_prefix = pair.nonce_prefix;
            counter = ap suc pair.counter;
          })
          (omega arith) later in
      rw sealed (rw (open_all_opens o o' bytes (seal_all s' frames) frame opened) (rw rest refl))
