-- ===== src/Relay/HostProof.antt =====
-- packages/relay-core/src/host-proof.ts: the proof that a host holds its static key, and the key and
-- MAC of its later data dials. The primitives of @noble are the record `Primitives`.
pub mod Binding
use pherry.Base.{
  ℕ, Bool, true, false, List, [], ◌∷◌, ◌++◌, Option, none, some, ◌==◌, if◌then◌else◌, ◌&&◌,
}
use pherry.Channel.Keys.{constant_time_equal}
use mathlib.Core.Option

-- An identifier (host, cell, ticket) is a number that stands for its text, and `encode` is the
-- TextEncoder on that text. `shared_secret` is `none` where x25519.getSharedSecret throws.
pub record Primitives : Type 0 where
  pub encode : ℕ → List ℕ
  pub public_key : List ℕ → List ℕ
  pub shared_secret : List ℕ → List ℕ → Option (List ℕ)
  -- The key material, the salt and the info.
  pub hkdf : List ℕ → List ℕ → List ℕ → List ℕ
  pub hmac : List ℕ → List ℕ → List ℕ
  -- The three labels of the module, as bytes.
  pub proof_info : List ℕ
  pub transcript_label : List ℕ
  pub data_auth_label : List ℕ

-- `HostChallenge`
pub record HostChallenge : Type 0 where
  pub cell_id : ℕ
  pub nonce : List ℕ
  pub cell_ephemeral_pub : List ℕ

-- `HostChallengeSecret`
pub record HostChallengeSecret : Type 0 where
  pub challenge : HostChallenge
  pub cell_ephemeral_secret : List ℕ

module _ (k : Primitives) where
  open k use {
    encode, public_key, shared_secret, hkdf, hmac, proof_info, transcript_label, data_auth_label,
  }

  -- `makeChallenge` on the random secret and nonce that it draws.
  unfoldable pub make_challenge : ℕ → List ℕ → List ℕ → HostChallengeSecret
  make_challenge cell_id secret nonce = record {
    challenge = record { cell_id = cell_id; nonce = nonce; cell_ephemeral_pub = public_key secret };
    cell_ephemeral_secret = secret;
  }

  unfoldable pub transcript : ℕ → HostChallenge → List ℕ
  transcript host_id c =
      transcript_label
      ++ (encode host_id ++ 0 ∷ (encode c.cell_id ++ 0 ∷ (c.nonce ++ c.cell_ephemeral_pub)))

  unfoldable pub compute_mac : List ℕ → ℕ → HostChallenge → List ℕ
  compute_mac dh host_id c = hmac (hkdf dh c.nonce proof_info) (transcript host_id c)

  -- `proveHost`: `none` where it throws.
  unfoldable pub prove_host : HostChallenge → ℕ → List ℕ → Option (List ℕ)
  prove_host c host_id host_secret =
      Option.map (λ dh. compute_mac dh host_id c) (shared_secret host_secret c.cell_ephemeral_pub)

  unfoldable pub verify_proof : HostChallengeSecret → ℕ → List ℕ → List ℕ → Bool
  verify_proof s host_id host_static_pub mac =
      elim (shared_secret s.cell_ephemeral_secret host_static_pub) [
        | none ↦ false
        | some dh ↦ constant_time_equal (compute_mac dh host_id s.challenge) mac
      ]

  unfoldable pub derive_data_auth_key : List ℕ → List ℕ → List ℕ
  derive_data_auth_key dh nonce = hkdf dh nonce data_auth_label

  pub host_data_auth_key : HostChallenge → List ℕ → Option (List ℕ)
  host_data_auth_key c host_secret =
      Option.map (λ dh. derive_data_auth_key dh c.nonce)
        (shared_secret host_secret c.cell_ephemeral_pub)

  unfoldable pub cell_data_auth_key : HostChallengeSecret → List ℕ → Option (List ℕ)
  cell_data_auth_key s host_static_pub =
      Option.map (λ dh. derive_data_auth_key dh s.challenge.nonce)
        (shared_secret s.cell_ephemeral_secret host_static_pub)

  unfoldable pub data_auth_preimage : ℕ → ℕ → List ℕ → List ℕ
  data_auth_preimage cell_id ticket bridge_nonce =
      data_auth_label ++ (encode cell_id ++ 0 ∷ (encode ticket ++ 0 ∷ bridge_nonce))

  unfoldable pub data_auth_mac : List ℕ → ℕ → ℕ → List ℕ → List ℕ
  data_auth_mac k_data cell_id ticket bridge_nonce =
      hmac k_data (data_auth_preimage cell_id ticket bridge_nonce)

  unfoldable pub verify_data_auth_mac : List ℕ → ℕ → ℕ → List ℕ → List ℕ → Bool
  verify_data_auth_mac k_data cell_id ticket bridge_nonce mac =
      constant_time_equal (data_auth_mac k_data cell_id ticket bridge_nonce) mac
