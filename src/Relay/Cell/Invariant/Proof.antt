-- ===== src/Relay/Cell/Invariant/Proof.antt =====
-- `#beginRegistration`'s answer and `#onProof` of packages/relay-core/src/cell.ts keep the invariant.
use pherry.Base.{
  ℕ, ◌≡◌, ◌≢◌, ◌⊎◌, refl, sym, ap, ◌∙◌, inl, inr, true, false, List, Option, none, some,
  Option-cases, Bool-cases, if_elim, ◌||◌,
}
use pherry.Base.Maps.{update_self}
use pherry.Relay.HostProof.{
  Primitives, make_challenge, HostChallengeSecret, verify_proof, cell_data_auth_key,
}
use pherry.Relay.Cell.State.{
  Cell, Conn, control_pending, set_conn, refuse, nothing, OuterMessage, host_hello, host_challenge,
  host_proof, host_registered, conn_open, data_auth, data_ready, drain, close, protocol_error,
  unknown_host, proof_failed,
}
use pherry.Relay.Cell.Registration.{
  challenge_host, drop_challenge, register, check_proof, on_proof, challenged,
}
use pherry.Relay.Cell.Invariant.{IsSound, Inv}
use pherry.Relay.Cell.Invariant.Cleanup.{send-Inv}
use pherry.Relay.Cell.Invariant.Detach.{refuse-Inv}
use pherry.Relay.Cell.Invariant.Idle.{idle-Inv, drop_challenge-Inv, answered-Inv}
use pherry.Relay.Cell.Invariant.Register.{register-Inv}

some_ne {ℓ} : {A : Type ℓ} (a : A) → some a ≢ none
some_ne a e = cc

-- The challenge of a closed connection is gone, as far as messages still reach it.
abbrev pub IsSpent : Conn → Type 0
IsSpent conn = conn.closed ≡ true → conn.challenge ≡ none

pub challenged_cases :
    (conn : Conn)
    → ((challenged conn ≡ none)
        × ((conn.challenge ≡ none) ⊎ ((conn.host_id ≡ none) ⊎ (conn.host_static_pub ≡ none))))
      ⊎ ((ch : HostChallengeSecret) × (h : ℕ) × (key : List ℕ) × (conn.challenge ≡ some ch)
          × (conn.host_id ≡ some h)
          × (conn.host_static_pub ≡ some key)
          × (challenged conn ≡ some (ch, h, key)))
unfolding challenged
challenged_cases conn = elim (Option-cases conn.challenge) [
  | inl e ↦ inl (rw (e, challenged) refl, inl e)
  | inr (ch, e) ↦ elim (Option-cases conn.host_id) [
    | inl q ↦ inl (rw (e, challenged) (rw q refl), inr (inl q))
    | inr (h, q) ↦ elim (Option-cases conn.host_static_pub) [
      | inl r ↦ inl (rw (e, challenged) (rw q (rw r refl)), inr (inr r))
      | inr (key, r) ↦ inr (ch, h, key, e, q, r, rw (e, challenged) (rw q (rw r refl)))
    ]
  ]
]

-- Without a whole challenge there is none at all.
pub unchallenged : (conn : Conn) → IsSound conn → challenged conn ≡ none → conn.challenge ≡ none
unchallenged conn v e = elim (Option-cases conn.challenge) [
  | inl q ↦ q
  | inr (ch, q) ↦ elim (challenged_cases conn) [
    | inl (_, inl r) ↦ r
    | inl (_, inr (inl r)) ↦ absurd ((v.bound (λ x. cc)).0 r)
    | inl (_, inr (inr r)) ↦ absurd ((v.bound (λ x. cc)).1 r)
    | inr (_, _, _, _, _, _, r) ↦ cc
  ]
]

module _ (k : Primitives) where
  pub challenge_host-Inv :
      {s : Cell} (c h : ℕ) (static_pub : Option (List ℕ)) (secret nonce : List ℕ)
      → Inv s
      → (s.conns c).role ≡ control_pending
      → Inv (challenge_host k c h static_pub secret nonce s)
  unfolding challenge_host
  challenge_host-Inv {s} c h none secret nonce v role =
      let w = answered-Inv c v (inl role) in
      if_elim Inv _ _ _ (λ _. w) (λ _. (refuse-Inv c unknown_host w).0)
  challenge_host-Inv {s} c h (some key) secret nonce v role =
      let w = answered-Inv c v (inl role) in
      let conn : Conn = record (s.conns c) { awaiting = nothing } in
      let s' = set_conn c conn s in
      let same : s'.conns c ≡ conn = update_self s.conns c conn in
      let role' = ap (λ x. x.role) same ∙ role in
      let sound = w.sound c in
      let drawn = make_challenge k s.cell_id secret nonce in
      let next : Conn = record (s'.conns c) {
        host_id = some h;
        host_static_pub = some key;
        challenge = some drawn;
      } in
      if_elim Inv (s'.closed || (s'.conns c).closed) _ _ (λ _. w)
        (λ _.
          send-Inv c
            (host_challenge drawn.challenge.cell_id drawn.challenge.nonce
              drawn.challenge.cell_ephemeral_pub)
            (idle-Inv c next w (inl role')
              (record {
                fresh_ticket = λ q. sound.fresh_ticket q;
                wait_ticket = λ t q. sound.wait_ticket t q;
                wait_key = λ j q. cc (ap (λ x. x.awaiting) same, q);
                challenged = λ q. absurd (q role');
                bound = λ _. (some_ne h, some_ne key);
                unaccepted = λ q. sound.unaccepted q;
              })
              refl (inr refl)))

  check_proof-Inv :
      {s : Cell} (c : ℕ) (ch : HostChallengeSecret) (h : ℕ) (key mac : List ℕ)
      → Inv s
      → (s.conns c).role ≡ control_pending
      → (s.conns c).challenge ≡ some ch
      → (s.conns c).host_id ≡ some h
      → IsSpent (s.conns c)
      → Inv (check_proof k c (ch, h, key) mac s)
  unfolding check_proof drop_challenge
  check_proof-Inv {s} c ch h key mac v role e host_id spent =
      let w = drop_challenge-Inv c v role in
      let conn : Conn = record (s.conns c) { challenge = none } in
      let same : (drop_challenge c s).conns c ≡ conn = update_self s.conns c conn in
      let open_ : (s.conns c).closed ≡ false = elim (Bool-cases (s.conns c).closed) [
        | inl q ↦ cc (spent q, e)
        | inr q ↦ q
      ] in
      let sound = v.sound c in
      let dropped = drop_challenge c s in
      let verified : Inv (elim (cell_data_auth_key k ch key) [
        | none ↦ refuse c proof_failed dropped
        | some data_key ↦ register c h data_key dropped
      ]) =
        elim (Option-cases (cell_data_auth_key k ch key)) [
          | inl q ↦ rw q (refuse-Inv c proof_failed w).0
          | inr (data_key, q) ↦ rw q (
              register-Inv c h data_key w (ap (λ x. x.role) same ∙ role)
                (ap (λ x. x.host_id) same ∙ host_id) (ap (λ x. x.closed) same ∙ open_)
                (ap (λ x. x.challenge) same)
                (λ j r. cc ((sound.wait_key j (sym (ap (λ x. x.awaiting) same) ∙ r)).1, e)))
        ] in
      if_elim Inv (verify_proof k ch h key mac) _ _ (λ _. verified)
        (λ _. (refuse-Inv c proof_failed w).0)

  pub on_proof-Inv :
      {s : Cell} (c : ℕ) (m : OuterMessage)
      → Inv s
      → (s.conns c).role ≡ control_pending
      → IsSpent (s.conns c)
      → Inv (on_proof k c m s)
  unfolding on_proof
  on_proof-Inv {s} c (host_proof mac) v role spent = elim (challenged_cases (s.conns c)) [
    | inl (e, _) ↦ rw (e, on_proof) (refuse-Inv c protocol_error v).0
    | inr (ch, h, key, e, q, _, r) ↦
        rw (r, on_proof) (check_proof-Inv c ch h key mac v role e q spent)
  ]
  on_proof-Inv c (host_hello _) v role _ = (refuse-Inv c _ (drop_challenge-Inv c v role)).0
  on_proof-Inv c (host_challenge _ _ _) v role _ = (refuse-Inv c _ (drop_challenge-Inv c v role)).0
  on_proof-Inv c (host_registered _) v role _ = (refuse-Inv c _ (drop_challenge-Inv c v role)).0
  on_proof-Inv c (conn_open _ _) v role _ = (refuse-Inv c _ (drop_challenge-Inv c v role)).0
  on_proof-Inv c (data_auth _ _ _) v role _ = (refuse-Inv c _ (drop_challenge-Inv c v role)).0
  on_proof-Inv c data_ready v role _ = (refuse-Inv c _ (drop_challenge-Inv c v role)).0
  on_proof-Inv c drain v role _ = (refuse-Inv c _ (drop_challenge-Inv c v role)).0
  on_proof-Inv c (close _) v role _ = (refuse-Inv c _ (drop_challenge-Inv c v role)).0
