-- ===== src/Relay/Cell/Admission.antt =====
-- Who is registered in packages/relay-core/src/cell.ts: the entry that `#onProof` adds.
use pherry.Base.{
  ℕ, ◌≡◌, ◌≢◌, ◌⊎◌, refl, sym, ap, ◌∙◌, inl, inr, true, List, none, some, ◌==◌, Option-cases,
  if_elim,
}
use pherry.Base.Maps.{lookup, insert, lookup-delete-some, lookup-insert-some}
use pherry.Relay.HostProof.{Primitives, HostChallengeSecret, verify_proof, cell_data_auth_key}
use pherry.Relay.Cell.State.{
  Cell, Conn, set_conn, send, close_conn, refuse, cleanup, drop_host, drop_pending, drop_bridge,
  drop_key, unlink, OuterMessage, host_hello, host_challenge, host_proof, host_registered,
  conn_open, data_auth, data_ready, drain, close, RelayCloseCode, proof_failed, protocol_error,
  ConnRole,
}
use pherry.Relay.Cell.Registration.{on_proof, check_proof, register, replace_host, drop_challenge}
use pherry.Relay.Cell.Invariant.Cleanup.{send-SameMaps, drop_pending-hosts}
use pherry.Relay.Cell.Invariant.Proof.{challenged_cases}

-- Every entry of `t` is one of `s`.
record Within (s t : Cell) : Type 0 where
  pub entry : (h c : ℕ) → lookup h t.hosts ≡ some c → lookup h s.hosts ≡ some c

same-Within : (s t : Cell) → t.hosts ≡ s.hosts → Within s t
same-Within s t e = record { entry = λ h c q. ap (lookup h) (sym e) ∙ q }

trans_Within : (r s t : Cell) → Within r s → Within s t → Within r t
trans_Within r s t a b = record { entry = λ h c q. a.entry h c (b.entry h c q) }

drop_host-Within : (c : ℕ) (s : Cell) → Within s (drop_host c s)
unfolding drop_host
drop_host-Within c s = elim (Option-cases (s.conns c).host_id) [
  | inl e ↦ rw (e, drop_host) (same-Within s s refl)
  | inr (h, e) ↦ elim (Option-cases (lookup h s.hosts)) [
    | inl q ↦ rw (e, drop_host) (rw q (same-Within s s refl))
    | inr (c', q) ↦
        rw (e, drop_host)
          (rw q (
            if_elim (Within s) (c' == c) _ _
              (λ _. record { entry = λ j d r. (lookup-delete-some j h s.hosts r).0 })
              (λ _. same-Within s s refl)))
  ]
]

drop_bridge-hosts : (c : ℕ) (s : Cell) → (drop_bridge c s).hosts ≡ s.hosts
unfolding drop_bridge close_conn unlink
drop_bridge-hosts c s = elim (Option-cases (s.conns c).bridge) [
  | inl e ↦ rw (e, drop_bridge) refl
  | inr (i, e) ↦ elim (Option-cases (lookup i s.bridges)) [
    | inl q ↦ rw (e, drop_bridge) (rw q refl)
    | inr (b, q) ↦ rw (e, drop_bridge) (rw q refl)
  ]
]

refuse-Within : (c : ℕ) (code : RelayCloseCode) (s : Cell) → Within s (refuse c code s)
unfolding refuse cleanup drop_key close_conn
refuse-Within c code s =
    let told = send c (close code) s in
    let hostless = drop_host c told in
    trans_Within s hostless (refuse c code s)
      (trans_Within s told hostless (same-Within s told (send-SameMaps c (close code) s).hosts)
        (drop_host-Within c told))
      (same-Within hostless (refuse c code s)
        (drop_bridge-hosts c (drop_pending c hostless) ∙ drop_pending-hosts c hostless))

replace_host-hosts : (c h : ℕ) (s : Cell) → (replace_host c h s).hosts ≡ s.hosts
unfolding replace_host close_conn
replace_host-hosts c h s = elim (Option-cases (lookup h s.hosts)) [
  | inl e ↦ rw (e, replace_host) refl
  | inr (previous, e) ↦
      rw (e, replace_host)
        (if_elim (λ (x : Cell). x.hosts ≡ s.hosts) (previous == c) _ _ (λ _. refl) (λ _. refl))
]

register_entry :
    (c h : ℕ) (key : List ℕ) (s : Cell) (j d : ℕ)
    → lookup j (register c h key s).hosts ≡ some d
    → (h ≡ j) ⊎ (lookup j s.hosts ≡ some d)
unfolding register
register_entry c h key s j d e =
    let r = replace_host c h s in
    let sent = send-SameMaps c (host_registered h) (
      set_conn c (record (r.conns c) { data_key = some key; role = ConnRole.control })
        (record r { hosts = insert h c r.hosts })) in
    elim (lookup-insert-some j h c r.hosts (ap (lookup j) (sym sent.hosts) ∙ e)) [
      | inl (same, _) ↦ inl same
      | inr (_, old) ↦ inr (ap (lookup j) (sym (replace_host-hosts c h s)) ∙ old)
    ]

module _ (k : Primitives) where
  -- A message of which the proof holds for host `h` under the connection's own challenge and key.
  Proves : ℕ → OuterMessage → Conn → Type 0
  Proves h m conn =
      (mac : List ℕ) × (ch : HostChallengeSecret) × (key : List ℕ) × (m ≡ host_proof mac)
      × (conn.challenge ≡ some ch)
      × (conn.host_id ≡ some h)
      × (conn.host_static_pub ≡ some key)
      × (verify_proof k ch h key mac ≡ true)

  Explains : ℕ → ℕ → OuterMessage → Cell → Cell → Type 0
  Explains h c m s t =
      lookup h t.hosts ≡ some c → (lookup h s.hosts ≡ some c) ⊎ Proves h m (s.conns c)

  refused-Explains :
      (h c : ℕ) (m : OuterMessage) (code : RelayCloseCode) (s t : Cell)
      → t.hosts ≡ s.hosts
      → Explains h c m s (refuse c code t)
  unfolding Explains
  refused-Explains h c m code s t same e =
      inl (ap (lookup h) (sym same) ∙ (refuse-Within c code t).entry h c e)

  dropped-hosts : (c : ℕ) (s : Cell) → (drop_challenge c s).hosts ≡ s.hosts
  unfolding drop_challenge
  dropped-hosts c s = refl

  check_proof-Explains :
      (h c : ℕ) (ch : HostChallengeSecret) (j : ℕ) (key mac : List ℕ) (s : Cell)
      → (s.conns c).challenge ≡ some ch
      → (s.conns c).host_id ≡ some j
      → (s.conns c).host_static_pub ≡ some key
      → Explains h c (host_proof mac) s (check_proof k c (ch, j, key) mac s)
  unfolding check_proof Explains Proves
  check_proof-Explains h c ch j key mac s e q r =
      let s' = drop_challenge c s in
      let refused = refused-Explains h c (host_proof mac) proof_failed s s' (dropped-hosts c s) in
      let verified : verify_proof k ch j key mac ≡ true
          → Explains h c (host_proof mac) s (elim (cell_data_auth_key k ch key) [
            | none ↦ refuse c proof_failed s'
            | some data_key ↦ register c j data_key s'
          ]) =
        λ holds. elim (Option-cases (cell_data_auth_key k ch key)) [
          | inl x ↦ rw x refused
          | inr (data_key, x) ↦ rw x (λ found. elim (register_entry c j data_key s' h c found) [
            | inl same ↦ inr (
              mac,
              ch,
              key,
              refl,
              e,
              q ∙ ap some same,
              r,
              ap (λ i. verify_proof k ch i key mac) (sym same) ∙ holds,
            )
            | inr old ↦ inl (ap (lookup h) (sym (dropped-hosts c s)) ∙ old)
          ])
        ] in
      if_elim (Explains h c (host_proof mac) s) (verify_proof k ch j key mac) _ _ verified
        (λ _. refused)

  on_proof-Explains : (h c : ℕ) (m : OuterMessage) (s : Cell) → Explains h c m s (on_proof k c m s)
  unfolding on_proof
  on_proof-Explains h c (host_proof mac) s = elim (challenged_cases (s.conns c)) [
    | inl (e, _) ↦ rw (e, on_proof) (refused-Explains h c (host_proof mac) protocol_error s s refl)
    | inr (ch, j, key, e, q, r, x) ↦
        rw (x, on_proof) (check_proof-Explains h c ch j key mac s e q r)
  ]
  on_proof-Explains h c (host_hello i) s = refused-Explains h c _ _ s _ (dropped-hosts c s)
  on_proof-Explains h c (host_challenge i x y) s = refused-Explains h c _ _ s _ (dropped-hosts c s)
  on_proof-Explains h c (host_registered i) s = refused-Explains h c _ _ s _ (dropped-hosts c s)
  on_proof-Explains h c (conn_open i x) s = refused-Explains h c _ _ s _ (dropped-hosts c s)
  on_proof-Explains h c (data_auth r i x) s = refused-Explains h c _ _ s _ (dropped-hosts c s)
  on_proof-Explains h c data_ready s = refused-Explains h c _ _ s _ (dropped-hosts c s)
  on_proof-Explains h c drain s = refused-Explains h c _ _ s _ (dropped-hosts c s)
  on_proof-Explains h c (close x) s = refused-Explains h c _ _ s _ (dropped-hosts c s)

  -- If the message that answers a challenge registers its connection `c` for a host `h`, then it is a
  -- proof that holds for `h`, under the challenge and the static key that `c` was given.
  pub on_proof_registers :
      (h c : ℕ) (m : OuterMessage) (s : Cell)
      → lookup h s.hosts ≢ some c
      → lookup h (on_proof k c m s).hosts ≡ some c
      → (mac : List ℕ) × (ch : HostChallengeSecret) × (key : List ℕ) × (m ≡ host_proof mac)
        × ((s.conns c).challenge ≡ some ch)
        × ((s.conns c).host_id ≡ some h)
        × ((s.conns c).host_static_pub ≡ some key)
        × (verify_proof k ch h key mac ≡ true)
  unfolding Explains Proves
  on_proof_registers h c m s new found = elim (on_proof-Explains h c m s found) [
    | inl old ↦ absurd (new old)
    | inr proof ↦ proof
  ]
