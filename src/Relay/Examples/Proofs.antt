-- ===== src/Relay/Examples/Proofs.antt =====
-- The theorems about packages/relay-core/src/host-proof.ts at fixed inputs, over toy primitives.
use pherry.Base.{
  ℕ, zero, suc, ◌+◌, ◌≡◌, ◌↔◌, refl, sym, ap, ◌∙◌, true, List, [], ◌∷◌, ◌++◌, some, arith, length,
  replicate, length-replicate,
}
use pherry.Relay.HostProof.{
  Primitives, HostChallengeSecret, make_challenge, prove_host, verify_proof, compute_mac,
  host_data_auth_key, cell_data_auth_key, data_auth_mac, verify_data_auth_mac,
}
use pherry.Relay.HostProof.Binding.{
  IsText, data_auth_preimage_binds, transcript_binds, verify_proof-prove_host, verify_proof_iff,
  verify_data_auth_mac_iff,
}

-- Texts of ones, a secret that is its own public key, and a shared secret by lengths.
abbrev toy : Primitives
toy = record {
  encode = λ i. replicate i 1;
  public_key = λ a. a;
  shared_secret = λ a b. some ((length a + length b) ∷ []);
  hkdf = λ ikm salt info. ikm ++ salt ++ info;
  hmac = λ key message. key ++ message;
  proof_info = 1 ∷ [];
  transcript_label = 2 ∷ [];
  data_auth_label = 3 ∷ [];
}

toy-IsText : (i : ℕ) → IsText (toy.encode i)
toy-IsText zero = tt
toy-IsText (suc i) = ((λ e. omega arith), toy-IsText i)

toy_injective : (i j : ℕ) → toy.encode i ≡ toy.encode j → i ≡ j
toy_injective i j e = sym (length-replicate i 1) ∙ ap length e ∙ length-replicate j 1

toy_agrees :
    (a b : List ℕ) → toy.shared_secret a (toy.public_key b) ≡ toy.shared_secret b (toy.public_key a)
toy_agrees a b = ap (λ (n : ℕ). some (n ∷ [])) (omega arith)

abbrev toy_secret : HostChallengeSecret
toy_secret = record {
  challenge = record { cell_id = 4; nonce = 5 ∷ []; cell_ephemeral_pub = 6 ∷ 6 ∷ [] };
  cell_ephemeral_secret = 6 ∷ 6 ∷ [];
}

abbrev toy_mac : List ℕ
toy_mac = compute_mac toy (5 ∷ []) 9 toy_secret.challenge

data_auth_preimage_binds_example :
    (◌≡◌ {A = ℕ} 4 4) × (◌≡◌ {A = ℕ} 8 8) × (◌≡◌ {A = List ℕ} (5 ∷ []) (5 ∷ []))
data_auth_preimage_binds_example =
    data_auth_preimage_binds toy toy-IsText toy_injective 4 4 8 8 (5 ∷ []) (5 ∷ []) refl

transcript_binds_example : (◌≡◌ {A = ℕ} 9 9) × (toy_secret.challenge ≡ toy_secret.challenge)
transcript_binds_example =
    transcript_binds toy toy-IsText toy_injective 9 9 toy_secret.challenge toy_secret.challenge refl
      refl

verify_proof-prove_host_example :
    (verify_proof toy (make_challenge toy 4 (6 ∷ 6 ∷ []) (5 ∷ [])) 9 (7 ∷ 7 ∷ 7 ∷ []) toy_mac
      ≡ true)
    × (cell_data_auth_key toy (make_challenge toy 4 (6 ∷ 6 ∷ []) (5 ∷ [])) (7 ∷ 7 ∷ 7 ∷ [])
        ≡ host_data_auth_key toy
            (make_challenge toy 4 (6 ∷ 6 ∷ []) (5 ∷ [])).challenge
            (7 ∷ 7 ∷ 7 ∷ []))
unfolding make_challenge prove_host
verify_proof-prove_host_example =
    verify_proof-prove_host toy toy_agrees 4 9 (6 ∷ 6 ∷ []) (5 ∷ []) (7 ∷ 7 ∷ 7 ∷ []) toy_mac refl

verify_proof_iff_example : (verify_proof toy toy_secret 9 (7 ∷ 7 ∷ 7 ∷ []) toy_mac ≡ true) ↔ (
    (dh : List ℕ) × (toy.shared_secret toy_secret.cell_ephemeral_secret (7 ∷ 7 ∷ 7 ∷ []) ≡ some dh)
    × (toy_mac ≡ compute_mac toy dh 9 toy_secret.challenge))
verify_proof_iff_example = verify_proof_iff toy toy_secret 9 (7 ∷ 7 ∷ 7 ∷ []) toy_mac

verify_data_auth_mac_iff_example :
    (verify_data_auth_mac toy (1 ∷ []) 4 8 (5 ∷ []) (1 ∷ []) ≡ true)
    ↔ ((1 ∷ []) ≡ data_auth_mac toy (1 ∷ []) 4 8 (5 ∷ []))
verify_data_auth_mac_iff_example = verify_data_auth_mac_iff toy (1 ∷ []) 4 8 (5 ∷ []) (1 ∷ [])
