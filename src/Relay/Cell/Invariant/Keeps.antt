-- ===== src/Relay/Cell/Invariant/Keeps.antt =====
-- What the operations of packages/relay-core/src/cell.ts leave of every connection: whether it was
-- accepted, and its challenge, which only goes away.
use pherry.Base.{
  ℕ, ◌≡◌, ◌⊎◌, refl, sym, subst, ◌∙◌, inl, inr, List, Option, none, ◌==◌, arith, ℕ_discrete,
  Option-cases, Bool-cases, if_elim,
}
use pherry.Base.Maps.{lookup, update_self, update_ne}
use pherry.Relay.HostProof.{Primitives}
use pherry.Relay.Cell.State.{
  Cell, Conn, PendingBridge, set_conn, send, close_conn, drop_host, drop_pending, drop_bridge,
  drop_key, cleanup, refuse, detach, unlink, OuterMessage, RelayCloseCode, close,
}
use pherry.Relay.Cell.Registration.{register, replace_host, drop_challenge, begin_registration}
use pherry.Relay.Cell.Bridging.{
  splice, link, go_raw, begin_controller_bridge, dial, complete_host_dial, dial_authentic,
}

pub record KeepsConn (a b : Conn) : Type 0 where
  pub accepted : b.accepted ≡ a.accepted
  pub challenge : (b.challenge ≡ none) ⊎ (b.challenge ≡ a.challenge)

pub record Keeps (r s : Cell) : Type 0 where
  pub each : (j : ℕ) → KeepsConn (r.conns j) (s.conns j)

pub Keeps-refl : (s : Cell) → Keeps s s
Keeps-refl s = record { each = λ j. record { accepted = refl; challenge = inr refl } }

KeepsConn-trans : (a b d : Conn) → KeepsConn a b → KeepsConn b d → KeepsConn a d
KeepsConn-trans a b d k l = record {
  accepted = l.accepted ∙ k.accepted;
  challenge = elim l.challenge [
    | inl e ↦ inl e
    | inr e ↦ elim k.challenge [ inl q ↦ inl (e ∙ q) | inr q ↦ inr (e ∙ q) ]
  ];
}

pub change-Keeps :
    {r s : Cell} (c : ℕ) (conn : Conn)
    → KeepsConn (s.conns c) conn
    → Keeps r s
    → Keeps r (set_conn c conn s)
change-Keeps {r} {s} c conn k h = record {
  each = λ j. elim (ℕ_discrete c j) [
    | yes here ↦
        rw (← here, update_self s.conns c conn)
          (KeepsConn-trans (r.conns c) (s.conns c) conn (h.each c) k)
    | no there ↦ rw (update_ne s.conns c j conn there) (h.each j)
  ];
}

-- A change of a connection that leaves both fields.
pub set_conn-Keeps :
    {r s : Cell} (c : ℕ) (conn : Conn)
    → conn.accepted ≡ (s.conns c).accepted
    → conn.challenge ≡ (s.conns c).challenge
    → Keeps r s
    → Keeps r (set_conn c conn s)
set_conn-Keeps c conn e q = change-Keeps c conn (record { accepted = e; challenge = inr q })

-- A change of anything but the connections.
pub maps-Keeps : {r s : Cell} (t : Cell) → t.conns ≡ s.conns → Keeps r s → Keeps r t
maps-Keeps {r} {s} t e h = record {
  each = λ j. subst (λ f. KeepsConn (r.conns j) (f j)) (sym e) (h.each j);
}

pub send-conns : (c : ℕ) (m : OuterMessage) (s : Cell) → (send c m s).conns ≡ s.conns
unfolding send
send-conns c m s = ground arith

pub send-Keeps : {r s : Cell} (c : ℕ) (m : OuterMessage) → Keeps r s → Keeps r (send c m s)
send-Keeps {r} {s} c m h = maps-Keeps _ (send-conns c m s) h

pub close_conn-Keeps : {r s : Cell} (c : ℕ) → Keeps r s → Keeps r (close_conn c s)
unfolding close_conn
close_conn-Keeps c h = set_conn-Keeps c _ refl refl h

unlink-Keeps : {r s : Cell} (c : ℕ) → Keeps r s → Keeps r (unlink c s)
unfolding unlink
unlink-Keeps c h = set_conn-Keeps c _ refl refl h

drop_key-Keeps : {r s : Cell} (c : ℕ) → Keeps r s → Keeps r (drop_key c s)
unfolding drop_key
drop_key-Keeps c h = set_conn-Keeps c _ refl refl h

drop_host-Keeps : {r s : Cell} (c : ℕ) → Keeps r s → Keeps r (drop_host c s)
unfolding drop_host
drop_host-Keeps {r} {s} c h =
    let same : (drop_host c s).conns ≡ s.conns = ground arith in maps-Keeps _ same h

drop_pending-Keeps : {r s : Cell} (c : ℕ) → Keeps r s → Keeps r (drop_pending c s)
unfolding drop_pending
drop_pending-Keeps {r} {s} c h =
    let same : (drop_pending c s).conns ≡ s.conns = ground arith in maps-Keeps _ same h

drop_bridge-Keeps : {r s : Cell} (c : ℕ) → Keeps r s → Keeps r (drop_bridge c s)
unfolding drop_bridge
drop_bridge-Keeps {r} {s} c h = elim (Option-cases (s.conns c).bridge) [
  | inl e ↦ rw (e, drop_bridge) h
  | inr (i, e) ↦ elim (Option-cases (lookup i s.bridges)) [
    | inl q ↦ rw (e, drop_bridge) (rw q h)
    | inr (b, q) ↦
        rw (e, drop_bridge)
          (rw q (close_conn-Keeps _ (unlink-Keeps _ (maps-Keeps {s = s} _ refl h))))
  ]
]

cleanup-Keeps : {r s : Cell} (c : ℕ) → Keeps r s → Keeps r (cleanup c s)
unfolding cleanup
cleanup-Keeps c h =
    drop_key-Keeps c (drop_bridge-Keeps c (drop_pending-Keeps c (drop_host-Keeps c h)))

pub refuse-Keeps :
    {r s : Cell} (c : ℕ) (code : RelayCloseCode) → Keeps r s → Keeps r (refuse c code s)
unfolding refuse
refuse-Keeps c code h = close_conn-Keeps c (cleanup-Keeps c (send-Keeps c (close code) h))

pub detach-Keeps : {r s : Cell} (c : ℕ) → Keeps r s → Keeps r (detach c s)
unfolding detach
detach-Keeps c h = close_conn-Keeps c (cleanup-Keeps c h)

pub begin_controller_bridge-Keeps :
    {r s : Cell} (c t : ℕ) → Keeps r s → Keeps r (begin_controller_bridge c t s)
unfolding begin_controller_bridge
begin_controller_bridge-Keeps {r} {s} c t h =
    if_elim (Keeps r) s.draining _ _ (λ e. refuse-Keeps c _ h) (λ e. set_conn-Keeps c _ refl refl h)

pub begin_registration-Keeps :
    {r s : Cell} (c h : ℕ) → Keeps r s → Keeps r (begin_registration c h s)
unfolding begin_registration
begin_registration-Keeps c h = set_conn-Keeps c _ refl refl

pub drop_challenge-Keeps : {r s : Cell} (c : ℕ) → Keeps r s → Keeps r (drop_challenge c s)
unfolding drop_challenge
drop_challenge-Keeps c = change-Keeps c _ (record { accepted = refl; challenge = inl refl })

pub replace_host-Keeps : {r s : Cell} (c h : ℕ) → Keeps r s → Keeps r (replace_host c h s)
unfolding replace_host
replace_host-Keeps {r} {s} c h v = elim (Option-cases (lookup h s.hosts)) [
  | inl e ↦ rw (e, replace_host) v
  | inr (previous, e) ↦ elim (Bool-cases (previous == c)) [
    | inl q ↦ rw (e, replace_host) (rw q v)
    | inr q ↦ rw (e, replace_host) (rw q (close_conn-Keeps previous v))
  ]
]

pub register-Keeps :
    {r s : Cell} (c h : ℕ) (key : List ℕ) → Keeps r s → Keeps r (register c h key s)
unfolding register
register-Keeps c h key v =
    send-Keeps c _ (set_conn-Keeps c _ refl refl (maps-Keeps _ refl (replace_host-Keeps c h v)))

link-Keeps : {r s : Cell} (a b t : ℕ) → Keeps r s → Keeps r (link a b t s)
unfolding link
link-Keeps {r} {s} a b t h =
    set_conn-Keeps b _ refl refl (set_conn-Keeps a _ refl refl (maps-Keeps _ refl h))

go_raw-Keeps : {r s : Cell} (c : ℕ) → Keeps r s → Keeps r (go_raw c s)
unfolding go_raw
go_raw-Keeps c = set_conn-Keeps c _ refl refl

splice-Keeps : {r s : Cell} (a b t : ℕ) → Keeps r s → Keeps r (splice a b t s)
unfolding splice
splice-Keeps a b t h =
    go_raw-Keeps b (go_raw-Keeps a (send-Keeps b _ (send-Keeps a _ (link-Keeps a b t h))))

module _ (k : Primitives) where
  dial-Keeps :
      {r s : Cell} (c t : ℕ) (p : PendingBridge) (mac : Option (List ℕ))
      → Keeps r s
      → Keeps r (dial k c t p mac s)
  unfolding dial
  dial-Keeps {r} {s} c t p mac h = elim (Bool-cases (dial_authentic k t p mac s)) [
    | inl q ↦
        simp (q, dial)
          (splice-Keeps p.controller c t (set_conn-Keeps c _ refl refl (maps-Keeps _ refl h)))
    | inr q ↦ simp (q, dial) (refuse-Keeps c _ h)
  ]

  pub complete_host_dial-Keeps :
      {r s : Cell} (c t : ℕ) (mac : Option (List ℕ))
      → Keeps r s
      → Keeps r (complete_host_dial k c t mac s)
  unfolding complete_host_dial
  complete_host_dial-Keeps {r} {s} c t mac h = elim (Option-cases (lookup t s.pending)) [
    | inl e ↦ rw (e, complete_host_dial) (refuse-Keeps c _ h)
    | inr (p, e) ↦ rw (e, complete_host_dial) (dial-Keeps c t p mac h)
  ]
