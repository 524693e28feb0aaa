-- ===== src/Relay/Cell/Invariant/Spent.antt =====
-- After `#dispatch` of packages/relay-core/src/cell.ts the connection has no challenge left, and is
-- still an accepted one.
use pherry.Base.{ℕ, ◌≡◌, ◌≢◌, refl, ap, ◌∙◌, inl, inr, List, none, some, Option-cases, if_elim}
use pherry.Base.Maps.{update_self}
use pherry.Relay.HostProof.{Primitives, HostChallengeSecret, verify_proof, cell_data_auth_key}
use pherry.Relay.Cell.State.{
  Cell, ConnRole, unclassified, control_pending, control, controller_data, host_data, OuterMessage,
  host_hello, host_challenge, host_proof, host_registered, conn_open, data_auth, data_ready, drain,
  close, refuse, proof_failed, DialRole, RelayCloseCode,
}
use pherry.Relay.Cell.Registration.{drop_challenge, register, check_proof, on_proof, challenged}
use pherry.Relay.Cell.Events.{classify, dispatch, on_control}
use pherry.Relay.Cell.Invariant.{IsSound}
use pherry.Relay.Cell.Invariant.Keeps.{
  Keeps, Keeps-refl, set_conn-Keeps, refuse-Keeps, detach-Keeps, register-Keeps,
  drop_challenge-Keeps, begin_registration-Keeps, begin_controller_bridge-Keeps,
  complete_host_dial-Keeps,
}
use pherry.Relay.Cell.Invariant.Proof.{unchallenged}

still_spent :
    {r s : Cell} (c : ℕ) → Keeps r s → (r.conns c).challenge ≡ none → (s.conns c).challenge ≡ none
still_spent c k e = elim (k.each c).challenge [ inl q ↦ q | inr q ↦ q ∙ e ]

dropped : (c : ℕ) (s : Cell) → ((drop_challenge c s).conns c).challenge ≡ none
unfolding drop_challenge
dropped c s = ap (λ x. x.challenge) (update_self s.conns c _)

module _ (k : Primitives) where
  check_proof-Keeps :
      {r : Cell} (s : Cell) (c : ℕ) (ch : HostChallengeSecret) (h : ℕ) (key mac : List ℕ)
      → Keeps r (drop_challenge c s)
      → Keeps r (check_proof k c (ch, h, key) mac s)
  unfolding check_proof
  check_proof-Keeps {r} s c ch h key mac v =
      let s' = drop_challenge c s in
      let verified : Keeps r (elim (cell_data_auth_key k ch key) [
        | none ↦ refuse c proof_failed s'
        | some data_key ↦ register c h data_key s'
      ]) =
        elim (Option-cases (cell_data_auth_key k ch key)) [
          | inl q ↦ rw q (refuse-Keeps c proof_failed v)
          | inr (data_key, q) ↦ rw q (register-Keeps c h data_key v)
        ] in
      if_elim (Keeps r) (verify_proof k ch h key mac) _ _ (λ _. verified)
        (λ _. refuse-Keeps c proof_failed v)

  -- A message in the middle of a registration: what it leaves of every connection, and the challenge.
  abbrev AfterProof : ℕ → Cell → Cell → Type 0
  AfterProof c s t = Keeps s t × ((t.conns c).challenge ≡ none)

  refused_proof :
      (c : ℕ) (s : Cell) (code : RelayCloseCode)
      → AfterProof c s (refuse c code (drop_challenge c s))
  refused_proof c s code = (
    refuse-Keeps c code (drop_challenge-Keeps c (Keeps-refl s)),
    still_spent c (refuse-Keeps c code (Keeps-refl (drop_challenge c s))) (dropped c s),
  )

  on_proof_after :
      (c : ℕ) (m : OuterMessage) (s : Cell)
      → IsSound (s.conns c)
      → AfterProof c s (on_proof k c m s)
  unfolding on_proof
  on_proof_after c (host_proof mac) s v = elim (Option-cases (challenged (s.conns c))) [
    | inl e ↦
        rw (e, on_proof)
          (
            refuse-Keeps c _ (Keeps-refl s),
            still_spent c (refuse-Keeps c _ (Keeps-refl s)) (unchallenged (s.conns c) v e),
          )
    | inr ((ch, h, key), e) ↦
        rw (e, on_proof)
          (
            check_proof-Keeps s c ch h key mac (drop_challenge-Keeps c (Keeps-refl s)),
            still_spent c (check_proof-Keeps s c ch h key mac (Keeps-refl (drop_challenge c s)))
                (dropped c s),
          )
  ]
  on_proof_after c (host_hello _) s v = refused_proof c s _
  on_proof_after c (host_challenge _ _ _) s v = refused_proof c s _
  on_proof_after c (host_registered _) s v = refused_proof c s _
  on_proof_after c (conn_open _ _) s v = refused_proof c s _
  on_proof_after c (data_auth _ _ _) s v = refused_proof c s _
  on_proof_after c data_ready s v = refused_proof c s _
  on_proof_after c drain s v = refused_proof c s _
  on_proof_after c (close _) s v = refused_proof c s _

  classify-Keeps : (c : ℕ) (m : OuterMessage) (s : Cell) → Keeps s (classify k c m s)
  unfolding classify
  classify-Keeps c (host_hello h) s =
      begin_registration-Keeps c h (set_conn-Keeps c _ refl refl (Keeps-refl s))
  classify-Keeps c (data_auth DialRole.controller t mac) s =
      begin_controller_bridge-Keeps c t (set_conn-Keeps c _ refl refl (Keeps-refl s))
  classify-Keeps c (data_auth DialRole.host t mac) s =
      complete_host_dial-Keeps k c t mac (set_conn-Keeps c _ refl refl (Keeps-refl s))
  classify-Keeps c (host_challenge _ _ _) s = refuse-Keeps c _ (Keeps-refl s)
  classify-Keeps c (host_proof _) s = refuse-Keeps c _ (Keeps-refl s)
  classify-Keeps c (host_registered _) s = refuse-Keeps c _ (Keeps-refl s)
  classify-Keeps c (conn_open _ _) s = refuse-Keeps c _ (Keeps-refl s)
  classify-Keeps c data_ready s = refuse-Keeps c _ (Keeps-refl s)
  classify-Keeps c drain s = refuse-Keeps c _ (Keeps-refl s)
  classify-Keeps c (close _) s = refuse-Keeps c _ (Keeps-refl s)

  on_control-Keeps : (c : ℕ) (m : OuterMessage) (s : Cell) → Keeps s (on_control k c m s)
  unfolding on_control
  on_control-Keeps c (host_hello _) s = refuse-Keeps c _ (Keeps-refl s)
  on_control-Keeps c (host_challenge _ _ _) s = refuse-Keeps c _ (Keeps-refl s)
  on_control-Keeps c (host_proof _) s = refuse-Keeps c _ (Keeps-refl s)
  on_control-Keeps c (host_registered _) s = refuse-Keeps c _ (Keeps-refl s)
  on_control-Keeps c (conn_open _ _) s = refuse-Keeps c _ (Keeps-refl s)
  on_control-Keeps c (data_auth _ _ _) s = refuse-Keeps c _ (Keeps-refl s)
  on_control-Keeps c data_ready s = refuse-Keeps c _ (Keeps-refl s)
  on_control-Keeps c drain s = refuse-Keeps c _ (Keeps-refl s)
  on_control-Keeps c (close _) s = detach-Keeps c (Keeps-refl s)

  pub role-cases :
      (P : Cell → Type 0) (c : ℕ) (m : OuterMessage) (s : Cell)
      → ((s.conns c).role ≡ unclassified → P (classify k c m s))
      → ((s.conns c).role ≡ control_pending → P (on_proof k c m s))
      → ((s.conns c).role ≡ control → P (on_control k c m s))
      → ((s.conns c).role ≢ control_pending → P (refuse c RelayCloseCode.protocol_error s))
      → P (dispatch k c m s)
  unfolding dispatch
  role-cases P c m s p q r t = go (s.conns c).role refl
    where
      go :
          (role : ConnRole)
          → (s.conns c).role ≡ role
          → P (elim role [
            | unclassified ↦ classify k c m s
            | control_pending ↦ on_proof k c m s
            | control ↦ on_control k c m s
            | controller_data ↦ refuse c RelayCloseCode.protocol_error s
            | host_data ↦ refuse c RelayCloseCode.protocol_error s
          ])
      go unclassified e = p e
      go control_pending e = q e
      go control e = r e
      go controller_data e = t (λ x. cc)
      go host_data e = t (λ x. cc)

  pub dispatch_after :
      (c : ℕ) (m : OuterMessage) (s : Cell)
      → IsSound (s.conns c)
      → AfterProof c s (dispatch k c m s)
  dispatch_after c m s v =
      let spent : (t : Cell) → (s.conns c).role ≢ control_pending → Keeps s t → AfterProof c s t =
        λ t r h. (h, still_spent c h (v.challenged r)) in
      role-cases (AfterProof c s) c m s (λ e. spent _ (λ q. cc) (classify-Keeps c m s))
        (λ e. on_proof_after c m s v) (λ e. spent _ (λ q. cc) (on_control-Keeps c m s))
        (λ e. spent _ e (refuse-Keeps c _ (Keeps-refl s)))
