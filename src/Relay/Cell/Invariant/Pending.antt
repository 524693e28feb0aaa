-- ===== src/Relay/Cell/Invariant/Pending.antt =====
-- Pending bridges in packages/relay-core/src/cell.ts: opened with a running timer, and refused when
-- it fires.
use pherry.Base.{
  ℕ, suc, ◌≡◌, ◌≢◌, refl, sym, ap, ◌∙◌, inl, inr, false, List, Option, none, some, leb, arith,
  Option-cases, if_elim, ◌||◌, some_inj,
}
use pherry.Base.Maps.{
  lookup, insert, delete, member, lookup-delete-some, lookup-delete, lookup-insert,
  lookup-insert-some, update_self,
}
use pherry.Relay.Cell.State.{
  Cell, Conn, PendingBridge, controller_data, set_conn, refuse, nothing, bad_ticket, ticket_expired,
  ticket_reused, unknown_host, bridge_timeout,
}
use pherry.Relay.Cell.Bridging.{
  TicketRecord, open_bridge, bridge_controller, on_bridge_timeout, mark_ticket_used,
}
use pherry.Relay.Cell.Invariant.{IsPending, Inv}
use pherry.Relay.Cell.Invariant.Cleanup.{send-Inv}
use pherry.Relay.Cell.Invariant.Detach.{refuse-Inv}
use pherry.Relay.Cell.Invariant.Idle.{IsIdle, idle-Inv, idle_raw_peer, answered-Inv}

-- A new entry and its timer.
insert_pending-Inv :
    (s : Cell) (t : ℕ) (p : PendingBridge) (used : List ℕ)
    → Inv s
    → IsPending t p (s.conns p.controller)
    → p.timer ≡ s.next_timer
    → Inv (record s {
      used_tickets = used;
      timers = insert p.timer t s.timers;
      next_timer = suc s.next_timer;
      pending = insert t p s.pending;
    })
insert_pending-Inv s t p used v new fresh = record {
  sound = v.sound;
  hosts = v.hosts;
  pending = λ j q e. elim (lookup-insert-some j t p s.pending e) [
    | inl (same, r) ↦ rw (← same, ← r) new
    | inr (_, old) ↦ v.pending j q old
  ];
  timers = λ j q e. elim (lookup-insert-some j t p s.pending e) [
    | inl (same, r) ↦
        rw (← same, ← r) (ground (arith, lookup-insert p.timer p.timer t s.timers), ground arith)
    | inr (_, old) ↦
        let (runs, bound) = v.timers j q old in
        (ground (arith, lookup-insert q.timer p.timer t s.timers), ground arith)
  ];
  bridges = v.bridges;
  linked = v.linked;
  wired = v.wired;
}

pub open_bridge-Inv :
    {s : Cell} (c t h host_conn : ℕ) (nonce : List ℕ)
    → Inv s
    → (s.conns c).role ≡ controller_data
    → (s.conns c).ticket ≡ none
    → (s.conns c).awaiting ≡ nothing
    → (s.conns c).closed ≡ false
    → Inv (open_bridge c t h host_conn nonce s)
unfolding open_bridge
open_bridge-Inv {s} c t h host_conn nonce v role ticket idle open_ =
    let w = v.sound c in
    let conn : Conn = record (s.conns c) { ticket = some t; host_id = some h } in
    let free : IsIdle (s.conns c) = inr (λ q. cc, ticket) in
    let x : Inv (set_conn c conn s) =
      idle-Inv c conn v free
        (record {
          fresh_ticket = λ q. cc;
          wait_ticket = λ j q. cc;
          wait_key = λ j q. cc;
          challenged = w.challenged;
          bound = λ q. ((λ r. cc), (w.bound q).1);
          unaccepted = w.unaccepted;
        })
        refl (inr refl) in
    send-Inv host_conn _ (
      insert_pending-Inv (set_conn c conn s) t _ (mark_ticket_used t s.used_tickets) x
        (rw (update_self s.conns c conn) (record {
          named = refl;
          role = role;
          ticket = refl;
          host_id = refl;
          alive = open_;
          unwired = idle_raw_peer c v free;
        }))
        refl)

pub bridge_controller-Inv :
    {s : Cell} (c t : ℕ) (answer : Option TicketRecord) (now : ℕ) (nonce : List ℕ)
    → Inv s
    → (s.conns c).role ≡ controller_data
    → (s.conns c).ticket ≡ none
    → Inv (bridge_controller c t answer now nonce s)
unfolding bridge_controller
bridge_controller-Inv {s} c t none now nonce v role ticket =
    let w = answered-Inv c v (inr (λ q. cc, ticket)) in
    if_elim Inv _ _ _ (λ _. w) (λ _. (refuse-Inv c bad_ticket w).0)
bridge_controller-Inv {s} c t (some r) now nonce v role ticket =
    let w = answered-Inv c v (inr (λ q. cc, ticket)) in
    let conn : Conn = record (s.conns c) { awaiting = nothing } in
    let s' = set_conn c conn s in
    let same : s'.conns c ≡ conn = update_self s.conns c conn in
    let found : (s'.closed || (s'.conns c).closed) ≡ false
        → Inv (elim (lookup r.host_id s.hosts) [
          | none ↦ refuse c unknown_host s'
          | some host_conn ↦ open_bridge c t r.host_id host_conn nonce s'
        ]) =
      λ e. elim (Option-cases (lookup r.host_id s.hosts)) [
        | inl q ↦ rw q (refuse-Inv c unknown_host w).0
        | inr (host_conn, q) ↦ rw q (
            open_bridge-Inv c t r.host_id host_conn nonce w (ap (λ x. x.role) same ∙ role)
              (ap (λ x. x.ticket) same ∙ ticket) (ap (λ x. x.awaiting) same) (ground arith))
      ] in
    if_elim Inv (s'.closed || (s'.conns c).closed) _ _ (λ _. w)
      (λ e.
        if_elim Inv (leb r.expires_at now) _ _ (λ _. (refuse-Inv c ticket_expired w).0)
          (λ _.
            if_elim Inv (member t s.used_tickets) _ _ (λ _. (refuse-Inv c ticket_reused w).0)
              (λ _. found e)))

-- A timer that has fired, and the entries of its ticket.
fired-Inv :
    (s : Cell) (timer t : ℕ)
    → Inv s
    → lookup timer s.timers ≡ some t
    → Inv (record s { timers = delete timer s.timers; pending = delete t s.pending })
fired-Inv s timer t v e = record {
  sound = v.sound;
  hosts = v.hosts;
  pending = λ j q r. v.pending j q (lookup-delete-some j t s.pending r).0;
  timers = λ j q r.
      let (old, other) = lookup-delete-some j t s.pending r in
      let (runs, bound) = v.timers j q old in
      let live : timer ≢ q.timer =
        λ z. other (some_inj (sym e ∙ ap (λ x. lookup x s.timers) z ∙ runs)) in
      (ground (arith, lookup-delete q.timer timer s.timers), bound);
  bridges = v.bridges;
  linked = v.linked;
  wired = v.wired;
}

-- Without an entry, nothing waits for the timer.
orphan-Inv :
    (s : Cell) (timer t : ℕ)
    → Inv s
    → lookup timer s.timers ≡ some t
    → lookup t s.pending ≡ none
    → Inv (record s { timers = delete timer s.timers })
orphan-Inv s timer t v e missing = record {
  sound = v.sound;
  hosts = v.hosts;
  pending = v.pending;
  timers = λ j q r.
      let (runs, bound) = v.timers j q r in
      let live : timer ≢ q.timer = λ z.
        let same : t ≡ j = some_inj (sym e ∙ ap (λ x. lookup x s.timers) z ∙ runs) in
        cc (missing, r, same) in
      (ground (arith, lookup-delete q.timer timer s.timers), bound);
  bridges = v.bridges;
  linked = v.linked;
  wired = v.wired;
}

pub on_bridge_timeout-Inv :
    {s : Cell} (timer t : ℕ)
    → Inv s
    → lookup timer s.timers ≡ some t
    → Inv (on_bridge_timeout t (record s { timers = delete timer s.timers }))
unfolding on_bridge_timeout
on_bridge_timeout-Inv {s} timer t v e = elim (Option-cases (lookup t s.pending)) [
  | inl q ↦ rw (q, on_bridge_timeout) (orphan-Inv s timer t v e q)
  | inr (p, q) ↦
      rw (q, on_bridge_timeout) (refuse-Inv p.controller bridge_timeout (fired-Inv s timer t v e)).0
]
