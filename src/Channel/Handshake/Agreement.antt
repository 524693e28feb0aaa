-- ===== src/Channel/Handshake/Agreement.antt =====
-- packages/channel/src/handshake.ts and kdf.ts: both sides of a handshake derive the same keys, and the salt binds
-- what they saw.
use pherry.Base.{
  ℕ, ◌≡◌, sym, ap, ap₂, ◌∙◌, List, Option, none, some, ◌==◌, if◌then◌else◌, length, append_cancel,
  split_equal,
}
use pherry.Channel.Keys.{key_bytes}
use pherry.Channel.Handshake.{
  Primitives, KeyScheduleInput, Handshake, derive, dh, initiator_handshake, responder_handshake,
  salt_input, salt_label, context_bytes,
}

-- What the key schedule takes X25519 to do: both sides get one secret, and public keys have 32 bytes.
pub record Agrees (k : Primitives) : Type 0 where
  pub commutes :
      (a b : List ℕ)
      → k.get_shared_secret a (k.get_public_key b) ≡ k.get_shared_secret b (k.get_public_key a)
  pub length_public : (a : List ℕ) → length (k.get_public_key a) ≡ key_bytes

module _ (k : Primitives) (law : Agrees k) where
  dh-get_public_key :
      (a b : List ℕ) → dh k a (k.get_public_key b) ≡ k.get_shared_secret a (k.get_public_key b)
  unfolding dh
  dh-get_public_key a b =
      ap (λ n. if n == key_bytes then k.get_shared_secret a (k.get_public_key b) else none)
        (law.length_public b)

  dh_commutes : (a b : List ℕ) → dh k a (k.get_public_key b) ≡ dh k b (k.get_public_key a)
  dh_commutes a b = dh-get_public_key a b ∙ law.commutes a b ∙ sym (dh-get_public_key b a)

  -- An initiator that pinned the responder's static key starts a handshake, and each side that is given the other's
  -- message gets what the other gets, under one context.
  pub consume_agree :
      (initiator responder static : List ℕ) (context : Option (List ℕ))
      → (h : Handshake k) × (initiator_handshake k initiator (k.get_public_key static) context
          ≡ some h)
        × (h.consume (responder_handshake k responder static context).message
            ≡ (responder_handshake k responder static context).consume h.message)
  unfolding initiator_handshake responder_handshake
  consume_agree initiator responder static context =
      let h : Handshake k = record {
        message = k.get_public_key initiator;
        consume = λ peer.
            derive k (dh k initiator peer) (dh k initiator (k.get_public_key static))
              (k.get_public_key initiator) peer context;
      } in
      (
        h,
        ap (λ n. if n == key_bytes then some h else none) (law.length_public static),
        ap₂
            (λ ee es.
              derive k ee es (k.get_public_key initiator) (k.get_public_key responder) context)
            (dh_commutes initiator responder) (dh_commutes initiator static),
      )

-- The bytes under the salt determine both messages, of 32 bytes each, and the context; no context is the empty one.
pub salt_input_binds :
    (a b : KeyScheduleInput)
    → length a.initiator_ephemeral_pub ≡ key_bytes
    → length b.initiator_ephemeral_pub ≡ key_bytes
    → length a.responder_ephemeral_pub ≡ key_bytes
    → length b.responder_ephemeral_pub ≡ key_bytes
    → salt_input a ≡ salt_input b
    → (a.initiator_ephemeral_pub ≡ b.initiator_ephemeral_pub)
      × (a.responder_ephemeral_pub ≡ b.responder_ephemeral_pub)
      × (context_bytes a.context ≡ context_bytes b.context)
unfolding salt_input
salt_input_binds a b ia ib ra rb e =
    let (initiators, rest) =
      split_equal a.initiator_ephemeral_pub b.initiator_ephemeral_pub _ _ (ia ∙ sym ib)
        (append_cancel salt_label _ _ e) in
    let (responders, contexts) =
      split_equal a.responder_ephemeral_pub b.responder_ephemeral_pub _ _ (ra ∙ sym rb) rest in
    (initiators, responders, contexts)
