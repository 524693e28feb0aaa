-- ===== src/Relay/Cell/Invariant/Dial.antt =====
-- `goRaw`, `#splice` and `#completeHostDial` of packages/relay-core/src/cell.ts keep the invariant.
use pherry.Base.{
  ℕ, ◌≡◌, ◌≢◌, refl, sym, ap, ◌∙◌, inl, inr, Bool, true, List, Option, none, some, ◌==◌,
  if◌then◌else◌, arith, Option-cases, if_elim, some_inj, ℕ_discrete,
}
use pherry.Base.Maps.{lookup, delete, update, update_self, update_ne, lookup-delete-some}
use pherry.Relay.HostProof.{Primitives}
use pherry.Relay.Cell.State.{
  Cell, Conn, PendingBridge, Bridge, host_data, set_conn, bad_ticket, data_auth_failed,
}
use pherry.Relay.Cell.Bridging.{go_raw, splice, dial, dial_authentic, complete_host_dial}
use pherry.Relay.Cell.Invariant.{IsSound, IsBridge, IsWired, Inv, IsFree}
use pherry.Relay.Cell.Invariant.Cleanup.{send-Inv, delete_pending-Inv, SameMaps, IsFree-SameMaps}
use pherry.Relay.Cell.Invariant.Detach.{refuse-Inv}
use pherry.Relay.Cell.Invariant.Idle.{IsIdle, idle-Inv, idle_IsFree, idle_raw_peer}
use pherry.Relay.Cell.Invariant.Splice.{IsPair, link-Inv}

abbrev with_raw : Conn → Bool → Conn
with_raw conn raw = record conn { raw = raw }

IsSound-raw : (conn : Conn) (r : Bool) → IsSound conn → IsSound (with_raw conn r)
IsSound-raw conn r v = record {
  fresh_ticket = v.fresh_ticket;
  wait_ticket = v.wait_ticket;
  wait_key = v.wait_key;
  challenged = v.challenged;
  bound = v.bound;
  unaccepted = v.unaccepted;
}

IsWired-raw :
    (c : ℕ) (conn peer : Conn) (q r : Bool)
    → IsWired c conn peer
    → IsWired c (with_raw conn q) (with_raw peer r)
IsWired-raw c conn peer q r v = record {
  ticketed = v.ticketed;
  ticket = v.ticket;
  host_id = v.host_id;
  roles = v.roles;
  back = v.back;
}

IsBridge-raw :
    (i : ℕ) (b : Bridge) (x y : Conn) (q r : Bool)
    → IsBridge i b x y
    → IsBridge i b (with_raw x q) (with_raw y r)
IsBridge-raw i b x y q r v = record {
  controller_link = v.controller_link;
  host_link = v.host_link;
  controller_peer = v.controller_peer;
  host_peer = v.host_peer;
  controller_role = v.controller_role;
  host_role = v.host_role;
  controller_ticket = v.controller_ticket;
  host_ticket = v.host_ticket;
}

-- No part of the invariant reads `raw`.
module _ {s : Cell} (c : ℕ) (inv : Inv s) where
  abbrev after : ℕ → Conn
  after = update s.conns c (with_raw (s.conns c) true)

  abbrev flag : ℕ → Bool
  flag j = if c == j then true else (s.conns j).raw

  same : (j : ℕ) → after j ≡ with_raw (s.conns j) (flag j)
  same j = elim (ℕ_discrete c j) [ yes here ↦ ground arith | no there ↦ ground arith ]

  pub go_raw-Inv : Inv (go_raw c s)
  unfolding go_raw
  go_raw-Inv = record {
    sound = λ j. rw (same j) (IsSound-raw _ _ (inv.sound j));
    hosts = λ h d e.
        let v = inv.hosts h d e in
        rw (same d)
          (record { role = v.role; host_id = v.host_id; alive = v.alive; keyed = v.keyed });
    pending = λ t p e.
        let v = inv.pending t p e in
        rw (same p.controller) (record {
          named = v.named;
          role = v.role;
          ticket = v.ticket;
          host_id = v.host_id;
          alive = v.alive;
          unwired = v.unwired;
        });
    timers = inv.timers;
    bridges = λ i b e.
        let (v, bound) = inv.bridges i b e in
        (rw (same b.controller, same b.host) (IsBridge-raw i b _ _ _ _ v), bound);
    linked = λ j i e. inv.linked j i (sym (ap (λ x. x.bridge) (same j)) ∙ e);
    wired = λ x d e.
        rw (same x, same d)
          (IsWired-raw x _ _ _ _ (inv.wired x d (sym (ap (λ y. y.raw_peer) (same x)) ∙ e)));
  }

pub splice-Inv : {s : Cell} (a b t : ℕ) → Inv s → IsPair s a b t → Inv (splice a b t s)
unfolding splice
splice-Inv a b t v pair =
    go_raw-Inv b (go_raw-Inv a (send-Inv b _ (send-Inv a _ (link-Inv v a b t pair))))

-- A controller whose entry is taken out is one that no map names.
taken_IsFree :
    {s : Cell} (t : ℕ) (p : PendingBridge)
    → Inv s
    → lookup t s.pending ≡ some p
    → IsFree p.controller
        (record s { timers = delete p.timer s.timers; pending = delete t s.pending })
taken_IsFree {s} t p v e =
    let w = v.pending t p e in
    record {
      not_host = λ h q. cc ((v.hosts h p.controller q).role, w.role);
      not_pending = λ j x q r.
          let (old, other) = lookup-delete-some j t s.pending q in
          other (
            some_inj
              (sym w.ticket ∙ ap (λ y. (s.conns y).ticket) (sym r) ∙ (v.pending j x old).ticket));
      not_bridged = λ i b q.
          let f = (v.bridges i b q).0 in
          (
            λ r. cc (f.controller_peer, ap (λ y. (s.conns y).raw_peer) r, w.unwired),
            λ r. cc (f.host_peer, ap (λ y. (s.conns y).raw_peer) r, w.unwired),
          );
    }

module _ (k : Primitives) where
  dialed-Inv :
      {s : Cell} (c t : ℕ) (p : PendingBridge)
      → Inv s
      → lookup t s.pending ≡ some p
      → (s.conns c).role ≡ host_data
      → (s.conns c).ticket ≡ none
      → Inv (
          splice p.controller c t (
            set_conn c
              (record (s.conns c) { ticket = some t; host_id = some p.host_id })
              (record s { timers = delete p.timer s.timers; pending = delete t s.pending })))
  dialed-Inv {s} c t p v e role ticket =
      let taken = record s { timers = delete p.timer s.timers; pending = delete t s.pending } in
      let w : Inv taken = delete_pending-Inv t p e v in
      let idle : IsIdle (s.conns c) = inr (λ q. cc, ticket) in
      let conn : Conn = record (s.conns c) { ticket = some t; host_id = some p.host_id } in
      let sound = v.sound c in
      let x : Inv (set_conn c conn taken) =
        idle-Inv c conn w idle
          (record {
            fresh_ticket = λ q. cc;
            wait_ticket = λ j q. cc ((sound.wait_ticket j q).0, role);
            wait_key = sound.wait_key;
            challenged = sound.challenged;
            bound = λ q. ((λ r. cc), (sound.bound q).1);
            unaccepted = sound.unaccepted;
          })
          refl (inr refl) in
      let here : update s.conns c conn c ≡ conn = update_self s.conns c conn in
      let waits = v.pending t p e in
      let other : c ≢ p.controller = λ q. cc (role, waits.role, ap (λ y. (s.conns y).role) q) in
      let there : update s.conns c conn p.controller ≡ s.conns p.controller =
        update_ne s.conns c p.controller conn other in
      let maps : SameMaps taken (set_conn c conn taken) = record {
        hosts = refl;
        pending = refl;
        bridges = refl;
      } in
      splice-Inv p.controller c t x (record {
        controller_free = IsFree-SameMaps taken _ maps (taken_IsFree t p v e);
        host_free = IsFree-SameMaps taken _ maps (idle_IsFree c w idle);
        controller_role = ap (λ y. y.role) there ∙ waits.role;
        host_role = ap (λ y. y.role) here ∙ role;
        controller_ticket = ap (λ y. y.ticket) there ∙ waits.ticket;
        host_ticket = ap (λ y. y.ticket) here;
        host_id = ap (λ y. y.host_id) here ∙ sym waits.host_id ∙ sym (ap (λ y. y.host_id) there);
        controller_unwired = ap (λ y. y.raw_peer) there ∙ waits.unwired;
        host_unwired = ap (λ y. y.raw_peer) here ∙ idle_raw_peer c v idle;
      })

  pub complete_host_dial-Inv :
      {s : Cell} (c t : ℕ) (mac : Option (List ℕ))
      → Inv s
      → (s.conns c).role ≡ host_data
      → (s.conns c).ticket ≡ none
      → Inv (complete_host_dial k c t mac s)
  unfolding complete_host_dial dial
  complete_host_dial-Inv {s} c t mac v role ticket = elim (Option-cases (lookup t s.pending)) [
    | inl e ↦ rw (e, complete_host_dial) (refuse-Inv c bad_ticket v).0
    | inr (p, e) ↦
        rw (e, complete_host_dial)
          (if_elim Inv (dial_authentic k t p mac s) _ _ (λ _. dialed-Inv c t p v e role ticket)
            (λ _. (refuse-Inv c data_auth_failed v).0))
  ]
