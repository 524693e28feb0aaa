-- ===== src/Relay/Cell/Invariant/Idle.antt =====
-- The steps of packages/relay-core/src/cell.ts that change one connection which no map names yet: it
-- is accepted, classified, and waits for an answer.
use pherry.Base.{
  ℕ, ◌≡◌, ◌≢◌, ◌⊎◌, refl, sym, ap, ◌∙◌, inl, inr, true, false, none, Option-cases, if_elim,
}
use pherry.Relay.Cell.State.{
  Cell, Conn, ConnRole, unclassified, control_pending, control, controller_data, set_conn,
  close_conn, Awaiting, host_key, ticket_record, nothing,
}
use pherry.Relay.Cell.Registration.{begin_registration, drop_challenge}
use pherry.Relay.Cell.Bridging.{begin_controller_bridge}
use pherry.Relay.Cell.Events.{accept, set_role, fail_answer}
use pherry.Relay.Cell.Invariant.{IsSound, Inv, IsFree}
use pherry.Relay.Cell.Invariant.Swap.{set_conn-Inv}
use pherry.Relay.Cell.Invariant.Detach.{refuse-Inv, close_conn-Inv}

-- A connection that has neither registered nor presented a ticket.
abbrev pub IsIdle : Conn → Type 0
IsIdle conn = (conn.role ≡ control_pending) ⊎ ((conn.role ≢ control) × (conn.ticket ≡ none))

pub unclassified_IsIdle : {conn : Conn} → IsSound conn → conn.role ≡ unclassified → IsIdle conn
unclassified_IsIdle v e = inr (λ q. cc, v.fresh_ticket e)

pub idle_raw_peer : {s : Cell} (c : ℕ) → Inv s → IsIdle (s.conns c) → (s.conns c).raw_peer ≡ none
idle_raw_peer {s} c v idle = elim (Option-cases (s.conns c).raw_peer) [
  | inl e ↦ e
  | inr (d, e) ↦ elim idle [
    | inl r ↦ elim (v.wired c d e).roles [ inl (q, _) ↦ cc | inr (q, _) ↦ cc ]
    | inr (_, t) ↦ absurd ((v.wired c d e).ticketed t)
  ]
]

pub idle_IsFree : {s : Cell} (c : ℕ) → Inv s → IsIdle (s.conns c) → IsFree c s
idle_IsFree {s} c v (inl r) = record {
  not_host = λ h e. cc ((v.hosts h c e).role, r);
  not_pending = λ t p e q. cc ((v.pending t p e).role, ap (λ x. (s.conns x).role) q, r);
  not_bridged = λ i b e. (
    λ q. cc ((v.bridges i b e).0.controller_role, ap (λ x. (s.conns x).role) q, r),
    λ q. cc ((v.bridges i b e).0.host_role, ap (λ x. (s.conns x).role) q, r),
  );
}
idle_IsFree {s} c v (inr (r, t)) = record {
  not_host = λ h e. r (v.hosts h c e).role;
  not_pending = λ t' p e q. cc ((v.pending t' p e).ticket, ap (λ x. (s.conns x).ticket) q, t);
  not_bridged = λ i b e. (
    λ q. cc ((v.bridges i b e).0.controller_ticket, ap (λ x. (s.conns x).ticket) q, t),
    λ q. cc ((v.bridges i b e).0.host_ticket, ap (λ x. (s.conns x).ticket) q, t),
  );
}

-- A change of an idle connection.
pub idle-Inv :
    {s : Cell} (c : ℕ) (conn : Conn)
    → Inv s
    → IsIdle (s.conns c)
    → IsSound conn
    → conn.raw_peer ≡ (s.conns c).raw_peer
    → (conn.bridge ≡ none) ⊎ (conn.bridge ≡ (s.conns c).bridge)
    → Inv (set_conn c conn s)
idle-Inv {s} c conn v idle sound raw link = set_conn-Inv v c conn (record {
  free = idle_IsFree c v idle;
  sound = sound;
  links = link;
  wires = inl (idle_raw_peer c v idle, raw ∙ idle_raw_peer c v idle);
})

pub accept-Inv : {s : Cell} (c : ℕ) → Inv s → (s.conns c).accepted ≡ false → Inv (accept c s)
unfolding accept close_conn
accept-Inv {s} c v e =
    let idle = unclassified_IsIdle (v.sound c) ((v.sound c).unaccepted e) in
    if_elim Inv s.closed _ _ (λ _. close_conn-Inv c (idle_IsFree c v idle) v)
      (λ _.
        idle-Inv c _ v idle
          (record {
            fresh_ticket = λ _. refl;
            wait_ticket = λ t q. cc;
            wait_key = λ h q. cc;
            challenged = λ _. refl;
            bound = λ q. absurd (q refl);
            unaccepted = λ q. cc;
          })
          (sym (idle_raw_peer c v idle)) (inl refl))

-- `#classify` sets the role of an accepted connection once.
pub set_role-Inv :
    {s : Cell} (c : ℕ) (role : ConnRole)
    → Inv s
    → (s.conns c).role ≡ unclassified
    → (s.conns c).accepted ≡ true
    → role ≢ unclassified
    → Inv (set_role c role s)
set_role-Inv {s} c role v e a r =
    let w = v.sound c in
    idle-Inv c _ v (unclassified_IsIdle w e)
      (record {
        fresh_ticket = λ q. absurd (r q);
        wait_ticket = λ t q. cc ((w.wait_ticket t q).0, e);
        wait_key = λ h q. cc ((w.wait_key h q).0, e);
        challenged = λ _. w.challenged (λ q. cc);
        bound = w.bound;
        unaccepted = λ q. cc;
      })
      refl (inr refl)

pub begin_registration-Inv :
    {s : Cell} (c h : ℕ)
    → Inv s
    → (s.conns c).role ≡ control_pending
    → (s.conns c).challenge ≡ none
    → Inv (begin_registration c h s)
unfolding begin_registration
begin_registration-Inv {s} c h v e q =
    let w = v.sound c in
    idle-Inv c _ v (inl e)
      (record {
        fresh_ticket = w.fresh_ticket;
        wait_ticket = λ t r. cc;
        wait_key = λ h r. (e, q);
        challenged = w.challenged;
        bound = w.bound;
        unaccepted = w.unaccepted;
      })
      refl (inr refl)

pub begin_controller_bridge-Inv :
    {s : Cell} (c t : ℕ)
    → Inv s
    → (s.conns c).role ≡ controller_data
    → (s.conns c).ticket ≡ none
    → Inv (begin_controller_bridge c t s)
unfolding begin_controller_bridge
begin_controller_bridge-Inv {s} c t v e q =
    let w = v.sound c in
    if_elim Inv s.draining _ _ (λ _. (refuse-Inv c _ v).0)
      (λ _.
        idle-Inv c _ v (inr (λ r. cc, q))
          (record {
            fresh_ticket = w.fresh_ticket;
            wait_ticket = λ t r. (e, q);
            wait_key = λ h r. cc;
            challenged = w.challenged;
            bound = w.bound;
            unaccepted = w.unaccepted;
          })
          refl (inr refl))

pub drop_challenge-Inv :
    {s : Cell} (c : ℕ) → Inv s → (s.conns c).role ≡ control_pending → Inv (drop_challenge c s)
unfolding drop_challenge
drop_challenge-Inv {s} c v e =
    let w = v.sound c in
    idle-Inv c _ v (inl e)
      (record {
        fresh_ticket = w.fresh_ticket;
        wait_ticket = w.wait_ticket;
        wait_key = λ h r. ((w.wait_key h r).0, refl);
        challenged = λ _. refl;
        bound = λ q. absurd (q refl);
        unaccepted = w.unaccepted;
      })
      refl (inr refl)

-- The wait for an answer ends.
pub answered-Inv :
    {s : Cell} (c : ℕ)
    → Inv s
    → IsIdle (s.conns c)
    → Inv (set_conn c (record (s.conns c) { awaiting = nothing }) s)
answered-Inv {s} c v idle =
    let w = v.sound c in
    idle-Inv c _ v idle
      (record {
        fresh_ticket = w.fresh_ticket;
        wait_ticket = λ t r. cc;
        wait_key = λ h r. cc;
        challenged = w.challenged;
        bound = w.bound;
        unaccepted = w.unaccepted;
      })
      refl (inr refl)

pub fail_answer-Inv :
    {s : Cell} (c : ℕ) (a : Awaiting) → Inv s → (s.conns c).awaiting ≡ a → Inv (fail_answer c a s)
unfolding fail_answer
fail_answer-Inv c nothing v e = v
fail_answer-Inv c (host_key h) v e =
    (refuse-Inv c _ (answered-Inv c v (inl ((v.sound c).wait_key h e).0))).0
fail_answer-Inv c (ticket_record t) v e =
    let (r, q) = (v.sound c).wait_ticket t e in
    (refuse-Inv c _ (answered-Inv c v (inr (λ x. cc, q)))).0
