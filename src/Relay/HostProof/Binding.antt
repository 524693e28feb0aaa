-- ===== src/Relay/HostProof/Binding.antt =====
-- packages/relay-core/src/host-proof.ts: the two sides agree, a check accepts exactly the right MAC,
-- and what is under a MAC determines the identifiers and the nonce.
use pherry.Base.{
  ℕ, ◌≡◌, ◌≢◌, ◌↔◌, refl, sym, ap, ◌∙◌, true, List, [], ◌∷◌, ◌++◌, some, All, length, append_cancel,
  split_equal, Option-cases, inl, inr,
}
use mathlib.Core.Option
use pherry.Channel.Keys.{constant_time_equal→eq, constant_time_equal_self}
use pherry.Relay.HostProof.{
  Primitives, HostChallenge, HostChallengeSecret, make_challenge, transcript, compute_mac,
  prove_host, verify_proof, derive_data_auth_key, host_data_auth_key, cell_data_auth_key,
  data_auth_preimage, data_auth_mac, verify_data_auth_mac,
}

-- The text of an identifier holds no NUL.
abbrev pub IsText : List ℕ → Type 0
IsText = All (λ b. b ≢ 0)

-- A NUL ends a text: what stands before and behind the first separator is determined.
separated : (a b x y : List ℕ) → IsText a → IsText b → a ++ 0 ∷ x ≡ b ++ 0 ∷ y → (a ≡ b) × (x ≡ y)
separated [] [] x y ha hb e = (refl, cc)
separated [] (c ∷ b) x y ha hb e = absurd (hb.0 (cc))
separated (c ∷ a) [] x y ha hb e = absurd (ha.0 (cc))
separated (c ∷ a) (d ∷ b) x y ha hb e =
    let (front, back) = separated a b x y ha.1 hb.1 (cc) in (cc, back)

module _ (k : Primitives) where
  open k use {encode, public_key, shared_secret}

  -- The bytes under a data-leg MAC determine the cell, the ticket and the nonce of the bridge: a MAC
  -- for one `conn-open` says nothing of another. Texts hold no NUL, and distinct identifiers have
  -- distinct texts.
  pub data_auth_preimage_binds :
      ((i : ℕ) → IsText (encode i))
      → ((i j : ℕ) → encode i ≡ encode j → i ≡ j)
      → (cell cell' ticket ticket' : ℕ) (nonce nonce' : List ℕ)
      → data_auth_preimage k cell ticket nonce ≡ data_auth_preimage k cell' ticket' nonce'
      → (cell ≡ cell') × (ticket ≡ ticket') × (nonce ≡ nonce')
  unfolding data_auth_preimage
  data_auth_preimage_binds text inj cell cell' ticket ticket' nonce nonce' e =
      let (cells, rest) =
        separated (encode cell) (encode cell') _ _ (text cell) (text cell')
          (append_cancel k.data_auth_label _ _ e) in
      let (tickets, nonces) =
        separated (encode ticket) (encode ticket') nonce nonce' (text ticket) (text ticket') rest in
      (inj cell cell' cells, inj ticket ticket' tickets, nonces)

  -- So do the bytes under a host proof: the host, the cell, the nonce and the ephemeral key, where
  -- nonces have one length.
  pub transcript_binds :
      ((i : ℕ) → IsText (encode i))
      → ((i j : ℕ) → encode i ≡ encode j → i ≡ j)
      → (host host' : ℕ) (c c' : HostChallenge) → length c.nonce ≡ length c'.nonce
      → transcript k host c ≡ transcript k host' c'
      → (host ≡ host') × (c ≡ c')
  unfolding transcript
  transcript_binds text inj host host' c c' size e =
      let (hosts, rest) =
        separated (encode host) (encode host') _ _ (text host) (text host')
          (append_cancel k.transcript_label _ _ e) in
      let (cells, last) =
        separated (encode c.cell_id) (encode c'.cell_id) _ _ (text c.cell_id) (text c'.cell_id)
          rest in
      let (nonces, keys) = split_equal c.nonce c'.nonce _ _ size last in
      let cell_path = inj c.cell_id c'.cell_id cells in
      (
        inj host host' hosts,
        λ i. record { cell_id = cell_path i; nonce = nonces i; cell_ephemeral_pub = keys i },
      )

  -- The Diffie-Hellman law of the curve: both sides compute one secret, or both throw.
  abbrev pub Agrees : Type 0
  Agrees = (a b : List ℕ) → shared_secret a (public_key b) ≡ shared_secret b (public_key a)

  -- The check accepts exactly the MAC of the secret that the cell shares with the registered key, and
  -- refuses every MAC where there is none.
  pub verify_proof_iff :
      (s : HostChallengeSecret) (host : ℕ) (pub_key mac : List ℕ)
      → (verify_proof k s host pub_key mac ≡ true) ↔ (
          (dh : List ℕ) × (shared_secret s.cell_ephemeral_secret pub_key ≡ some dh)
          × (mac ≡ compute_mac k dh host s.challenge))
  unfolding verify_proof
  verify_proof_iff s host pub_key mac = (
    λ h. elim (Option-cases (shared_secret s.cell_ephemeral_secret pub_key)) [
      | inl e ↦ cc (rw (e, verify_proof) at h)
      | inr (dh, e) ↦ (dh, e, sym (constant_time_equal→eq _ mac (rw (e, verify_proof) at h)))
    ],
    λ (dh, e, m). rw (e, verify_proof) (rw m (constant_time_equal_self _)),
  )

  prove_host_inversion :
      (c : HostChallenge) (host : ℕ) (host_secret mac : List ℕ)
      → prove_host k c host host_secret ≡ some mac
      → (dh : List ℕ) × (shared_secret host_secret c.cell_ephemeral_pub ≡ some dh)
        × (mac ≡ compute_mac k dh host c)
  unfolding prove_host
  prove_host_inversion c host host_secret mac made =
      elim (Option-cases (shared_secret host_secret c.cell_ephemeral_pub)) [
        | inl e ↦ cc (rw (e, prove_host) at made)
        | inr (dh, e) ↦ (dh, e, cc (rw (e, prove_host) at made))
      ]

  -- The proof that a host makes for a challenge passes the check against its public key, and the two
  -- sides derive the same data-leg key.
  pub verify_proof-prove_host :
      Agrees
      → (cell host : ℕ) (secret nonce host_secret mac : List ℕ)
      → let s = make_challenge k cell secret nonce in
        prove_host k s.challenge host host_secret ≡ some mac
        → (verify_proof k s host (public_key host_secret) mac ≡ true)
          × (cell_data_auth_key k s (public_key host_secret)
              ≡ host_data_auth_key k s.challenge host_secret)
  unfolding make_challenge prove_host verify_proof cell_data_auth_key host_data_auth_key
  verify_proof-prove_host agrees cell host secret nonce host_secret mac made =
      let shared : shared_secret secret (public_key host_secret)
          ≡ shared_secret host_secret (public_key secret) =
        agrees secret host_secret in
      let (dh, e, m) = prove_host_inversion _ host host_secret mac made in
      (
        (verify_proof_iff (make_challenge k cell secret nonce) host (public_key host_secret) mac).1
            (dh, shared ∙ e, m),
        ap (Option.map (λ dh'. derive_data_auth_key k dh' nonce)) shared,
      )

  -- A data dial is accepted exactly with the MAC over the cell, the ticket and the bridge's nonce.
  pub verify_data_auth_mac_iff :
      (key : List ℕ) (cell ticket : ℕ) (nonce mac : List ℕ)
      → (verify_data_auth_mac k key cell ticket nonce mac ≡ true)
        ↔ (mac ≡ data_auth_mac k key cell ticket nonce)
  unfolding verify_data_auth_mac
  verify_data_auth_mac_iff key cell ticket nonce mac =
      (λ h. sym (constant_time_equal→eq _ mac h), λ e. rw e (constant_time_equal_self _))
