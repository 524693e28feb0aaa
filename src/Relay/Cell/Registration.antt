-- ===== src/Relay/Cell/Registration.antt =====
-- packages/relay-core/src/cell.ts: host registration, `#beginRegistration` and `#onProof`.
use pherry.Base.{ℕ, List, Option, none, some, ◌==◌, if◌then◌else◌, ◌||◌}
use pherry.Base.Maps.{lookup, insert}
use pherry.Relay.HostProof.{
  Primitives, HostChallengeSecret, make_challenge, verify_proof, cell_data_auth_key,
}
use pherry.Relay.Cell.State.{
  Cell, Conn, OuterMessage, host_challenge, host_proof, host_registered, control, unknown_host,
  proof_failed, protocol_error, host_key, nothing, set_conn, send, close_conn, refuse,
}

-- `#beginRegistration` up to the authorizer's answer.
unfoldable pub begin_registration : ℕ → ℕ → Cell → Cell
begin_registration c host_id s = set_conn c (record (s.conns c) { awaiting = host_key host_id }) s

unfoldable pub drop_challenge : ℕ → Cell → Cell
drop_challenge c s = set_conn c (record (s.conns c) { challenge = none }) s

-- A prior connection of the host is closed before it is replaced.
unfoldable pub replace_host : ℕ → ℕ → Cell → Cell
replace_host c h s = elim (lookup h s.hosts) [
  | none ↦ s
  | some previous ↦ if previous == c then s else close_conn previous s
]

-- The end of `#onProof`, once the proof is good.
unfoldable pub register : ℕ → ℕ → List ℕ → Cell → Cell
register c h data_key s₀ =
    let s = replace_host c h s₀ in
    send c (host_registered h) (
      set_conn c (record (s.conns c) { data_key = some data_key; role = control })
        (record s { hosts = insert h c s.hosts }))

-- The host that a proof is about, as far as the connection has all of it.
unfoldable pub challenged : Conn → Option (HostChallengeSecret × ℕ × List ℕ)
challenged conn = elim conn.challenge [
  | none ↦ none
  | some ch ↦ elim conn.host_id [
    | none ↦ none
    | some h ↦ elim conn.host_static_pub [ none ↦ none | some key ↦ some (ch, h, key) ]
  ]
]

module _ (k : Primitives) where
  -- `#beginRegistration` from the answer on, with the secret and the nonce that are drawn.
  unfoldable pub challenge_host : ℕ → ℕ → Option (List ℕ) → List ℕ → List ℕ → Cell → Cell
  challenge_host c host_id static_pub secret nonce s₀ =
      let s = set_conn c (record (s₀.conns c) { awaiting = nothing }) s₀ in
      let drawn = make_challenge k s.cell_id secret nonce in
      if s.closed || (s.conns c).closed then s else elim static_pub [
        | none ↦ refuse c unknown_host s
        | some key ↦
            send c
              (host_challenge drawn.challenge.cell_id drawn.challenge.nonce
                drawn.challenge.cell_ephemeral_pub)
              (set_conn c
                (record (s.conns c) {
                  host_id = some host_id;
                  host_static_pub = some key;
                  challenge = some drawn;
                })
                s)
      ]

  unfoldable pub check_proof : ℕ → HostChallengeSecret × ℕ × List ℕ → List ℕ → Cell → Cell
  check_proof c (ch, h, key) mac s =
      let dropped = drop_challenge c s in
      if verify_proof k ch h key mac
      then elim (cell_data_auth_key k ch key) [
        | none ↦ refuse c proof_failed dropped
        | some data_key ↦ register c h data_key dropped
      ]
      else refuse c proof_failed dropped

  -- `#onProof`
  unfoldable pub on_proof : ℕ → OuterMessage → Cell → Cell
  on_proof c (host_proof mac) s = elim (challenged (s.conns c)) [
    | none ↦ refuse c protocol_error s
    | some held ↦ check_proof c held mac s
  ]
  on_proof c message s = refuse c protocol_error (drop_challenge c s)
