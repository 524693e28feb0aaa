-- ===== src/Channel/Record/Delivery.antt =====
-- Records of packages/channel/src/record.ts that a relay delivers as it likes.
use pherry.Base.{
  ℕ, suc, ◌+◌, ◌^◌, ◌<◌, ◌≤◌, ◌≡◌, ◌≢◌, refl, sym, ap, ◌∙◌, List, [], ◌∷◌, none, some, arith,
  length, take, drop, inl, inr, zero, some_inj, ℕ_discrete, All, get_elem?, ◌⊎◌,
}
use pherry.Channel.Record.{Primitives, Sealer, Opener, nonce_for}
use pherry.Channel.Record.Stream.{
  tag_of, seal_all, open_all, Paired, nonce_for_injective, open_record_cases, seal_all_safe,
  open_all_fails, open_all_opens,
}

-- An element that is found is the first of what is behind the elements before it.
drop_here {ℓ} :
    {A : Type ℓ} (i : ℕ) (xs : List A) (a : A)
    → get_elem? i xs ≡ some a
    → drop i xs ≡ a ∷ drop (suc i) xs
drop_here i [] a e = absurd (cc)
drop_here zero (x ∷ xs) a e = ap (λ y. y ∷ xs) (some_inj e)
drop_here (suc i) (x ∷ xs) a e = drop_here i xs a e

module _ (k : Primitives) where
  -- The record at a place of a sealer's stream is the frame at that place, under the nonce of its counter.
  get_elem-seal_all :
      (i : ℕ) (frames : List (List ℕ)) (s : Sealer) (bytes : List ℕ)
      → s.counter + length frames < 2 ^ 53
      → get_elem? i (seal_all k s frames) ≡ some bytes
      → (frame : List ℕ) × (get_elem? i frames ≡ some frame)
        × (bytes ≡ k.encrypt s.key (nonce_for s.nonce_prefix (s.counter + i)) frame)
        × (i < length frames)
  unfolding seal_all
  get_elem-seal_all i [] s bytes h e = cc
  get_elem-seal_all zero (frame ∷ frames) s bytes h e =
      let sealed = seal_all_safe k s frame frames (omega arith) in
      let first : get_elem? zero (seal_all k s (frame ∷ frames))
          ≡ some (k.encrypt s.key (nonce_for s.nonce_prefix s.counter) frame) =
        ap (λ rs. get_elem? zero rs) sealed in
      let same : s.counter ≡ s.counter + 0 = omega arith in
      (
        frame,
        refl,
        some_inj (sym e ∙ first)
            ∙ ap (λ n. k.encrypt s.key (nonce_for s.nonce_prefix n) frame) same,
        omega arith,
      )
  get_elem-seal_all (suc i) (frame ∷ frames) s bytes h e =
      let s' : Sealer = record s { counter = suc s.counter } in
      let sealed = seal_all_safe k s frame frames (omega arith) in
      let later : get_elem? i (seal_all k s' frames) ≡ some bytes =
        sym (ap (λ rs. get_elem? (suc i) rs) sealed) ∙ e in
      let (f, found, same, within) = get_elem-seal_all i frames s' bytes (omega arith) later in
      let next : suc s.counter + i ≡ s.counter + suc i = omega arith in
      (f, found, same ∙ ap (λ n. k.encrypt s.key (nonce_for s.nonce_prefix n) f) next, omega arith)

  -- What the receiver relies on the cipher for, under one key and the nonces of one prefix: it decrypts
  -- what it encrypts, and not under the nonce of another counter.
  pub record Separates (key prefix : List ℕ) : Type 0 where
    pub inverse :
        (nonce frame : List ℕ) → k.decrypt key nonce (k.encrypt key nonce frame) ≡ some frame
    pub apart :
        (i j : ℕ) (frame : List ℕ)
        → nonce_for prefix i ≢ nonce_for prefix j
        → k.decrypt key (nonce_for prefix j) (k.encrypt key (nonce_for prefix i) frame) ≡ none

  -- One of the sealer's records of these frames, or bytes that decrypt under no counter's nonce.
  abbrev pub Known : Sealer → List (List ℕ) → List ℕ → Type 0
  Known s frames bytes =
      ((i : ℕ) × (get_elem? i (seal_all k s frames) ≡ some bytes))
      ⊎ ((n : ℕ) → k.decrypt s.key (nonce_for s.nonce_prefix n) bytes ≡ none)

  -- Of the records that are known, only the one at the opener's place is accepted, with its frame.
  accepted_next :
      (s : Sealer) (frames : List (List ℕ)) (j : ℕ) (bytes frame : List ℕ)
      → Separates s.key s.nonce_prefix
      → s.counter + length frames < 2 ^ 53
      → j ≤ length frames
      → Known s frames bytes
      → k.decrypt s.key (nonce_for s.nonce_prefix (s.counter + j)) bytes ≡ some frame
      → (get_elem? j frames ≡ some frame) × (j < length frames)
  accepted_next s frames j bytes frame law h le (inr forged) e = absurd (cc (forged _))
  accepted_next s frames j bytes frame law h le (inl (i, at_i)) e =
      let (f, found, same, within) = get_elem-seal_all i frames s bytes h at_i in
      elim (ℕ_discrete i j) [
        | yes q ↦
            let opened : k.decrypt s.key (nonce_for s.nonce_prefix (s.counter + j)) bytes ≡ some f =
              ap (k.decrypt s.key (nonce_for s.nonce_prefix (s.counter + j)))
                (same ∙ ap (λ n. k.encrypt s.key (nonce_for s.nonce_prefix (s.counter + n)) f) q)
              ∙ law.inverse _ f in
            (ap (λ n. get_elem? n frames) (sym q) ∙ found ∙ sym opened ∙ e, omega arith)
        | no other ↦
            let differ : nonce_for s.nonce_prefix (s.counter + i)
                ≢ nonce_for s.nonce_prefix (s.counter + j) =
              λ eq.
                let same_counter =
                  nonce_for_injective s.nonce_prefix (s.counter + i) (s.counter + j) (omega arith)
                    (omega arith) eq in
                absurd (omega arith) in
            let refused =
              ap (k.decrypt s.key (nonce_for s.nonce_prefix (s.counter + j))) same
              ∙ law.apart (s.counter + i) (s.counter + j) f differ in
            absurd (cc)
      ]

  opened_from :
      (s : Sealer) (frames records : List (List ℕ)) (j : ℕ) (o : Opener)
      → Separates s.key s.nonce_prefix
      → s.counter + length frames < 2 ^ 53
      → o.key ≡ s.key
      → o.nonce_prefix ≡ s.nonce_prefix
      → o.counter ≡ s.counter + j
      → j ≤ length frames
      → All (Known s frames) records
      → open_all k o records ≡ take (length (open_all k o records)) (drop j frames)
  unfolding open_all
  opened_from s frames [] j o law h key prefix counter le known = refl
  opened_from s frames (bytes ∷ records) j o law h key prefix counter le known =
      elim (open_record_cases k o bytes) [
        | inl (e, q) ↦
            rw (open_all_fails k o bytes records e q)
              (opened_from s frames records j o law h key prefix counter le known.1)
        | inr (frame, decrypted, q) ↦
            let o' : Opener = record o {
              counter = suc o.counter;
              last_tag = some (tag_of bytes);
            } in
            let opened : k.decrypt s.key (nonce_for s.nonce_prefix (s.counter + j)) bytes
                ≡ some frame =
              rw (← key, ← prefix, ← counter) decrypted in
            let (found, within) = accepted_next s frames j bytes frame law h le known.0 opened in
            let rest =
              opened_from s frames records (suc j) o' law h key prefix
                (ap suc counter ∙ omega arith) (omega arith) known.1 in
            rw (open_all_opens k o o' bytes records frame q)
              (rw (drop_here j frames frame found) (ap (λ fs. frame ∷ fs) rest))
      ]

  -- Take a cipher that decrypts what it encrypts, and nothing under another counter's nonce. Whatever
  -- records of a sealer's stream are delivered to its paired opener, in whatever order, any number of
  -- times and with bytes among them that do not decrypt: what the opener takes out, where it does not
  -- throw, is the first of the sealer's frames, in their order, each once. The counters stay below the largest safe one.
  pub open_all_delivered :
      (s : Sealer) (o : Opener) (frames records : List (List ℕ))
      → Separates s.key s.nonce_prefix
      → Paired k s o
      → s.counter + length frames < 2 ^ 53
      → All (Known s frames) records
      → open_all k o records ≡ take (length (open_all k o records)) frames
  open_all_delivered s o frames records law pair h known =
      opened_from s frames records 0 o law h (sym pair.key) (sym pair.nonce_prefix)
        (sym pair.counter ∙ omega arith) (omega arith) known
