-- ===== src/Channel/Handshake.antt =====
-- packages/channel/src/handshake.ts and kdf.ts: the two messages and the keys that both sides derive. A side's
-- ephemeral secret is an argument. X25519, SHA-256 and HKDF of @noble are the record `Primitives`.
pub mod Agreement
use pherry.Base.{
  ℕ, ◌*◌, ◌+◌, ◌-◌, List, [], ◌∷◌, ◌++◌, Option, none, some, ◌==◌, if◌then◌else◌, length, take,
  drop,
}
use pherry.Channel.Keys.{key_bytes}

-- `get_shared_secret` is `none` where @noble throws, and `hkdf` is with SHA-256: the key material, the salt, the
-- info and the length.
pub record Primitives : Type 0 where
  pub get_public_key : List ℕ → List ℕ
  pub get_shared_secret : List ℕ → List ℕ → Option (List ℕ)
  pub sha256 : List ℕ → List ℕ
  pub hkdf : List ℕ → List ℕ → List ℕ → ℕ → List ℕ

-- The bytes of "pherry/channel/v1/salt".
abbrev pub salt_label : List ℕ
salt_label =
    112 ∷ 104 ∷ 101 ∷ 114 ∷ 114 ∷ 121 ∷ 47 ∷ 99 ∷ 104 ∷ 97 ∷ 110 ∷ 110 ∷ 101 ∷ 108 ∷ 47 ∷ 118 ∷ 49
    ∷ 47 ∷ 115 ∷ 97 ∷ 108 ∷ 116 ∷ []

-- The bytes of "pherry/channel/v1".
abbrev pub hkdf_info : List ℕ
hkdf_info = take 17 salt_label

abbrev pub record_key_bytes : ℕ
record_key_bytes = 32

abbrev pub session_id_bytes : ℕ
session_id_bytes = 32

abbrev pub okm_bytes : ℕ
okm_bytes = record_key_bytes * 2 + session_id_bytes

-- `SessionKeys`
pub record SessionKeys : Type 0 where
  pub key_i2r : List ℕ
  pub key_r2i : List ℕ
  pub session_id : List ℕ

-- `KeyScheduleInput`
pub record KeyScheduleInput : Type 0 where
  pub dh_ee : List ℕ
  pub dh_es : List ℕ
  pub initiator_ephemeral_pub : List ℕ
  pub responder_ephemeral_pub : List ℕ
  pub context : Option (List ℕ)

-- `input.context ?? EMPTY_CONTEXT`
abbrev pub context_bytes : Option (List ℕ) → List ℕ
context_bytes none = []
context_bytes (some context) = context

-- What the salt is the hash of.
unfoldable pub salt_input : KeyScheduleInput → List ℕ
salt_input input =
    salt_label
    ++ (input.initiator_ephemeral_pub
        ++ (input.responder_ephemeral_pub ++ context_bytes input.context))

module _ (k : Primitives) where
  -- `deriveSessionKeys`. `okm.slice(a, b)` is what follows the first `a` bytes, up to `b`.
  unfoldable pub derive_session_keys : KeyScheduleInput → SessionKeys
  derive_session_keys input =
      let okm =
        k.hkdf (input.dh_ee ++ input.dh_es) (k.sha256 (salt_input input)) hkdf_info okm_bytes in
      record {
        key_i2r = take record_key_bytes okm;
        key_r2i = take record_key_bytes (drop record_key_bytes okm);
        session_id = take session_id_bytes (drop (record_key_bytes * 2) okm);
      }

  -- `dh`: `none` where it throws.
  unfoldable pub dh : List ℕ → List ℕ → Option (List ℕ)
  dh own_secret peer_public =
      if length peer_public == key_bytes then k.get_shared_secret own_secret peer_public else none

  -- `consume` of either side, on the two secrets.
  unfoldable pub derive :
      Option (List ℕ) → Option (List ℕ) → List ℕ → List ℕ → Option (List ℕ) → Option SessionKeys
  derive none dh_es initiator responder context = none
  derive (some dh_ee) none initiator responder context = none
  derive (some dh_ee) (some dh_es) initiator responder context = some (
      derive_session_keys (record {
        dh_ee = dh_ee;
        dh_es = dh_es;
        initiator_ephemeral_pub = initiator;
        responder_ephemeral_pub = responder;
        context = context;
      }))

  -- `Handshake`
  pub record Handshake : Type 0 where
    pub message : List ℕ
    pub consume : List ℕ → Option SessionKeys

  -- `initiatorHandshake`: `none` where it throws.
  unfoldable pub initiator_handshake : List ℕ → List ℕ → Option (List ℕ) → Option Handshake
  initiator_handshake ephemeral pinned_host_static context =
      let message = k.get_public_key ephemeral in
      if length pinned_host_static == key_bytes
      then some (record {
        message = message;
        consume = λ responder.
            derive (dh ephemeral responder) (dh ephemeral pinned_host_static) message responder
              context;
      })
      else none

  -- `responderHandshake`, on the secret of the static key.
  unfoldable pub responder_handshake : List ℕ → List ℕ → Option (List ℕ) → Handshake
  responder_handshake ephemeral own_static context =
      let message = k.get_public_key ephemeral in
      record {
        message = message;
        consume = λ initiator.
            derive (dh ephemeral initiator) (dh own_static initiator) initiator message context;
      }
