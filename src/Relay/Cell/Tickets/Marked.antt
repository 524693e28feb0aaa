-- ===== src/Relay/Cell/Tickets/Marked.antt =====
-- The used tickets through the events of packages/relay-core/src/cell.ts: an event marks one ticket at
-- most, when it opens a bridge.
use pherry.Base.{
  ℕ, ◌≡◌, ◌⊎◌, refl, ◌∙◌, inl, inr, List, [], ◌∷◌, Option, none, some, ◌==◌, ◌||◌, arith, if_elim,
  Option-cases, leb,
}
use pherry.Base.Maps.{lookup, member}
use pherry.Relay.Cell.State.{
  Cell, PendingBridge, Bridge, set_conn, send, close_conn, drop_host, drop_pending, drop_bridge,
  drop_key, cleanup, refuse, detach, unlink, RelayCloseCode, close, host_registered, data_ready,
  drain, Awaiting, nothing, host_key, ticket_record,
}
use pherry.Relay.Cell.Registration.{replace_host, register}
use pherry.Relay.Cell.Bridging.{
  TicketRecord, begin_controller_bridge, bridge_controller, on_bridge_timeout, link, go_raw, splice,
  mark_ticket_used,
}
use pherry.Relay.Cell.Events.{
  accept, tell_hosts, drain_cell, close_pending, close_bridges, close_hosts, close_cell, forward,
  fail_answer,
}
use pherry.Relay.Cell.Tickets.Reuse.{send-used, open_bridge-used}

-- No ticket is marked.
abbrev pub IsSame : Cell → Cell → Type 0
IsSame s t = t.used_tickets ≡ s.used_tickets

drop_host-used : (c : ℕ) (s : Cell) → IsSame s (drop_host c s)
unfolding drop_host
drop_host-used c s = ground arith

drop_pending-used : (c : ℕ) (s : Cell) → IsSame s (drop_pending c s)
unfolding drop_pending
drop_pending-used c s = ground arith

drop_bridge-used : (c : ℕ) (s : Cell) → IsSame s (drop_bridge c s)
unfolding drop_bridge close_conn unlink
drop_bridge-used c s = elim (Option-cases (s.conns c).bridge) [
  | inl e ↦ rw (e, drop_bridge) refl
  | inr (i, e) ↦ elim (Option-cases (lookup i s.bridges)) [
    | inl q ↦ rw (e, drop_bridge) (rw q refl)
    | inr (b, q) ↦ rw (e, drop_bridge) (rw q refl)
  ]
]

cleanup-used : (c : ℕ) (s : Cell) → IsSame s (cleanup c s)
unfolding cleanup drop_key
cleanup-used c s =
    drop_bridge-used c (drop_pending c (drop_host c s))
    ∙ drop_pending-used c (drop_host c s)
    ∙ drop_host-used c s

pub detach-used : (c : ℕ) (s : Cell) → IsSame s (detach c s)
unfolding detach close_conn
detach-used c s = cleanup-used c s

pub refuse-used : (c : ℕ) (code : RelayCloseCode) (s : Cell) → IsSame s (refuse c code s)
unfolding refuse close_conn
refuse-used c code s = cleanup-used c (send c (close code) s) ∙ send-used c (close code) s

pub begin_controller_bridge-used : (c t : ℕ) (s : Cell) → IsSame s (begin_controller_bridge c t s)
unfolding begin_controller_bridge
begin_controller_bridge-used c t s =
    if_elim (IsSame s) s.draining _ _ (λ _. refuse-used c _ s) (λ _. refl)

replace_host-used : (c h : ℕ) (s : Cell) → IsSame s (replace_host c h s)
unfolding replace_host close_conn
replace_host-used c h s = elim (Option-cases (lookup h s.hosts)) [
  | inl e ↦ rw (e, replace_host) refl
  | inr (previous, e) ↦
      rw (e, replace_host) (if_elim (IsSame s) (previous == c) _ _ (λ _. refl) (λ _. refl))
]

pub register-used : (c h : ℕ) (key : List ℕ) (s : Cell) → IsSame s (register c h key s)
unfolding register
register-used c h key s = send-used c (host_registered h) _ ∙ replace_host-used c h s

pub splice-used : (a b t : ℕ) (s : Cell) → IsSame s (splice a b t s)
unfolding splice go_raw link
splice-used a b t s = send-used b data_ready _ ∙ send-used a data_ready _

pub on_bridge_timeout-used : (t : ℕ) (s : Cell) → IsSame s (on_bridge_timeout t s)
unfolding on_bridge_timeout
on_bridge_timeout-used t s = elim (Option-cases (lookup t s.pending)) [
  | inl e ↦ rw (e, on_bridge_timeout) refl
  | inr (p, e) ↦ rw (e, on_bridge_timeout) (refuse-used p.controller _ _)
]

pub accept-used : (c : ℕ) (s : Cell) → IsSame s (accept c s)
unfolding accept
accept-used c s = if_elim (IsSame s) s.closed _ _ (λ _. refl) (λ _. refl)

tell_hosts-used : (hosts : List (ℕ × ℕ)) (s : Cell) → IsSame s (tell_hosts hosts s)
unfolding tell_hosts
tell_hosts-used [] s = refl
tell_hosts-used ((h, c) ∷ hosts) s = tell_hosts-used hosts (send c drain s) ∙ send-used c drain s

pub drain_cell-used : (s : Cell) → IsSame s (drain_cell s)
unfolding drain_cell
drain_cell-used s =
    if_elim (IsSame s) (s.closed || s.draining) _ _ (λ _. refl) (λ _. tell_hosts-used s.hosts _)

close_pending-used : (ps : List (ℕ × PendingBridge)) (s : Cell) → IsSame s (close_pending ps s)
unfolding close_pending close_conn
close_pending-used [] s = refl
close_pending-used ((t, p) ∷ ps) s = close_pending-used ps _

close_bridges-used : (bs : List (ℕ × Bridge)) (s : Cell) → IsSame s (close_bridges bs s)
unfolding close_bridges close_conn
close_bridges-used [] s = refl
close_bridges-used ((i, b) ∷ bs) s = close_bridges-used bs _

close_hosts-used : (hosts : List (ℕ × ℕ)) (s : Cell) → IsSame s (close_hosts hosts s)
unfolding close_hosts close_conn
close_hosts-used [] s = refl
close_hosts-used ((h, c) ∷ hosts) s = close_hosts-used hosts _

pub close_cell-used : (s : Cell) → IsSame s (close_cell s)
unfolding close_cell
close_cell-used s =
    if_elim (IsSame s) s.closed _ _ (λ _. refl)
      (λ _.
        close_hosts-used s.hosts _
        ∙ close_bridges-used s.bridges _
        ∙ close_pending-used s.pending _)

pub forward-used : (c : ℕ) (bytes : List ℕ) (s : Cell) → IsSame s (forward c bytes s)
unfolding forward
forward-used c bytes s = elim (Option-cases (s.conns c).raw_peer) [
  | inl e ↦ rw (e, forward) refl
  | inr (peer, e) ↦
      rw (e, forward) (if_elim (IsSame s) (s.conns peer).closed _ _ (λ _. refl) (λ _. refl))
]

pub fail_answer-used : (c : ℕ) (a : Awaiting) (s : Cell) → IsSame s (fail_answer c a s)
unfolding fail_answer
fail_answer-used c nothing s = refl
fail_answer-used c (host_key h) s = refuse-used c _ _
fail_answer-used c (ticket_record t) s = refuse-used c _ _

-- One ticket is marked at most.
abbrev pub Marked : Cell → Cell → Type 0
Marked s t = IsSame s t ⊎ ((x : ℕ) × (t.used_tickets ≡ mark_ticket_used x s.used_tickets))

pub bridge_controller-Marked :
    (c t : ℕ) (answer : Option TicketRecord) (now : ℕ) (nonce : List ℕ) (s : Cell)
    → Marked s (bridge_controller c t answer now nonce s)
unfolding bridge_controller
bridge_controller-Marked c t none now nonce s =
    let s' = set_conn c (record (s.conns c) { awaiting = nothing }) s in
    if_elim (Marked s) (s'.closed || (s'.conns c).closed) _ _ (λ _. inl refl)
      (λ _. inl (refuse-used c _ s'))
bridge_controller-Marked c t (some r) now nonce s =
    let s' = set_conn c (record (s.conns c) { awaiting = nothing }) s in
    if_elim (Marked s) (s'.closed || (s'.conns c).closed) _ _ (λ _. inl refl)
      (λ _.
        if_elim (Marked s) (leb r.expires_at now) _ _ (λ _. inl (refuse-used c _ s'))
          (λ _.
            if_elim (Marked s) (member t s'.used_tickets) _ _ (λ _. inl (refuse-used c _ s'))
              (λ _. elim (Option-cases (lookup r.host_id s'.hosts)) [
                | inl e ↦ rw e (inl (refuse-used c _ s'))
                | inr (host_conn, e) ↦
                    rw e (inr (t, open_bridge-used c t r.host_id host_conn nonce s'))
              ])))
