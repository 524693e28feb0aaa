-- ===== src/Relay/Cell/Tickets.antt =====
-- Tickets and data dials of packages/relay-core/src/cell.ts: the window of used tickets, and what a
-- refused dial leaves.
pub mod Marked
pub mod Once
pub mod Reuse
use pherry.Base.{
  ℕ, suc, ◌-◌, ◌≡◌, refl, ap, ◌∙◌, inl, inr, true, false, List, [], ◌∷◌, ◌++◌, Option, none, some,
  ◌==◌, ltb, arith, Option-cases, if_elim, length, drop, ◌||◌, leb,
}
use pherry.Base.Maps.{lookup, update_self, member, add}
use pherry.Relay.HostProof.{Primitives, verify_data_auth_mac}
use pherry.Relay.Cell.State.{
  Cell, PendingBridge, refuse, cleanup, send, close_conn, drop_host, drop_pending, drop_bridge,
  drop_key, unlink, set_conn, OuterMessage, close, RelayCloseCode, nothing,
}
use pherry.Relay.Cell.Bridging.{
  dial, dial_authentic, complete_host_dial, mark_ticket_used, evict_oldest, max_used_tickets,
  bridge_controller, TicketRecord,
}
use pherry.Relay.Cell.Invariant.Keeps.{send-conns}

-- The pending bridges and the timers are the same.
pub record SamePending (s t : Cell) : Type 0 where
  pub pending : t.pending ≡ s.pending
  pub timers : t.timers ≡ s.timers

SamePending-refl : (s : Cell) → SamePending s s
SamePending-refl s = record { pending = refl; timers = refl }

send-SamePending : (c : ℕ) (m : OuterMessage) (s : Cell) → SamePending s (send c m s)
unfolding send
send-SamePending c m s =
    if_elim (SamePending s) (s.conns c).closed _ _ (λ _. SamePending-refl s)
      (λ _. record { pending = refl; timers = refl })

drop_host-SamePending :
    (c : ℕ) (s : Cell) → SamePending s (drop_host c s) × ((drop_host c s).conns ≡ s.conns)
unfolding drop_host
drop_host-SamePending c s = elim (Option-cases (s.conns c).host_id) [
  | inl e ↦ rw (e, drop_host) (SamePending-refl s, refl)
  | inr (h, e) ↦ elim (Option-cases (lookup h s.hosts)) [
    | inl q ↦ rw (e, drop_host) (rw q (SamePending-refl s, refl))
    | inr (c', q) ↦
        rw (e, drop_host)
          (rw q (
            if_elim (λ t. SamePending s t × (t.conns ≡ s.conns)) (c' == c) _ _
              (λ _. (record { pending = refl; timers = refl }, refl))
              (λ _. (SamePending-refl s, refl))))
  ]
]

drop_pending-none : (c : ℕ) (s : Cell) → (s.conns c).ticket ≡ none → drop_pending c s ≡ s
unfolding drop_pending
drop_pending-none c s e = rw (e, drop_pending) refl

drop_bridge-SamePending : (c : ℕ) (s : Cell) → SamePending s (drop_bridge c s)
unfolding drop_bridge close_conn unlink
drop_bridge-SamePending c s = elim (Option-cases (s.conns c).bridge) [
  | inl e ↦ rw (e, drop_bridge) (SamePending-refl s)
  | inr (i, e) ↦ elim (Option-cases (lookup i s.bridges)) [
    | inl q ↦ rw (e, drop_bridge) (rw q (SamePending-refl s))
    | inr (b, q) ↦ rw (e, drop_bridge) (rw q (record { pending = refl; timers = refl }))
  ]
]

-- A connection that holds no ticket is refused without a change of the pending bridges.
pub refuse-SamePending :
    (c : ℕ) (code : RelayCloseCode) (s : Cell)
    → (s.conns c).ticket ≡ none
    → SamePending s (refuse c code s)
unfolding refuse cleanup drop_key close_conn
refuse-SamePending c code s e =
    let told = send c (close code) s in
    let hostless = drop_host c told in
    let (kept, conns) = drop_host-SamePending c told in
    let ticketless : (hostless.conns c).ticket ≡ none =
      ap (λ f. (f c).ticket) (conns ∙ send-conns c (close code) s) ∙ e in
    let first = send-SamePending c (close code) s in
    let last = drop_bridge-SamePending c (drop_pending c hostless) in
    let middle = drop_pending-none c hostless ticketless in
    record {
      pending = last.pending ∙ ap (λ x. x.pending) middle ∙ kept.pending ∙ first.pending;
      timers = last.timers ∙ ap (λ x. x.timers) middle ∙ kept.timers ∙ first.timers;
    }

pub refuse_closed :
    (c : ℕ) (code : RelayCloseCode) (s : Cell) → ((refuse c code s).conns c).closed ≡ true
unfolding refuse close_conn
refuse_closed c code s =
    ap (λ x. x.closed) (update_self (cleanup c (send c (close code) s)).conns c _)

module _ (k : Primitives) where
  unproved :
      (t : ℕ) (mac : Option (List ℕ)) (p : PendingBridge) (s : Cell)
      → ((control : ℕ) (key bytes : List ℕ)
          → lookup p.host_id s.hosts ≡ some control
          → (s.conns control).data_key ≡ some key
          → mac ≡ some bytes
          → verify_data_auth_mac k key s.cell_id t p.nonce bytes ≡ false)
      → dial_authentic k t p mac s ≡ false
  unfolding dial_authentic
  unproved t mac p s forged = elim (Option-cases (lookup p.host_id s.hosts)) [
    | inl e ↦ rw (e, dial_authentic) refl
    | inr (control, e) ↦ elim (Option-cases (s.conns control).data_key) [
      | inl q ↦ rw (e, dial_authentic) (rw q refl)
      | inr (key, q) ↦ elim (Option-cases mac) [
        | inl r ↦ rw (e, dial_authentic) (rw q (rw r refl))
        | inr (bytes, r) ↦ rw (e, dial_authentic) (rw q (rw r (forged control key bytes e q r)))
      ]
    ]
  ]

  -- A data dial for a pending bridge is closed and leaves every pending bridge and every timer as they
  -- are, if the dialing connection holds no ticket yet and the dial has no valid proof: where the
  -- bridge's host is registered with a data key and the dial has a MAC, that key does not verify it on
  -- the cell's id, the ticket and the nonce. So it is for a dial without a MAC.
  pub complete_host_dial_refused :
      (c t : ℕ) (mac : Option (List ℕ)) (p : PendingBridge) (s : Cell)
      → (s.conns c).ticket ≡ none
      → lookup t s.pending ≡ some p
      → ((control : ℕ) (key bytes : List ℕ)
          → lookup p.host_id s.hosts ≡ some control
          → (s.conns control).data_key ≡ some key
          → mac ≡ some bytes
          → verify_data_auth_mac k key s.cell_id t p.nonce bytes ≡ false)
      → let s' = complete_host_dial k c t mac s in
        (s'.pending ≡ s.pending) × (s'.timers ≡ s.timers) × ((s'.conns c).closed ≡ true)
  unfolding complete_host_dial dial
  complete_host_dial_refused c t mac p s e found forged =
      let kept = refuse-SamePending c RelayCloseCode.data_auth_failed s e in
      rw (found, complete_host_dial)
        (rw (unproved t mac p s forged)
          (kept.pending, kept.timers, refuse_closed c RelayCloseCode.data_auth_failed s))

refuse_answered :
    (c : ℕ) (code : RelayCloseCode) (s : Cell)
    → (s.conns c).ticket ≡ none
    → (refuse c code (set_conn c (record (s.conns c) { awaiting = nothing }) s)).pending ≡ s.pending
refuse_answered c code s e =
    (refuse-SamePending c code _ (ap (λ x. x.ticket) (update_self s.conns c _) ∙ e)).pending

-- A ticket that is in the used set opens no bridge, whatever the authorizer answers: the pending
-- bridges stay, if the connection holds no ticket yet.
pub bridge_controller_used :
    (c t : ℕ) (answer : Option TicketRecord) (now : ℕ) (nonce : List ℕ) (s : Cell)
    → (s.conns c).ticket ≡ none
    → member t s.used_tickets ≡ true
    → (bridge_controller c t answer now nonce s).pending ≡ s.pending
unfolding bridge_controller
bridge_controller_used c t none now nonce s e used =
    let s' = set_conn c (record (s.conns c) { awaiting = nothing }) s in
    if_elim (λ (x : Cell). x.pending ≡ s.pending) (s'.closed || (s'.conns c).closed) _ _ (λ _. refl)
      (λ _. refuse_answered c RelayCloseCode.bad_ticket s e)
bridge_controller_used c t (some r) now nonce s e used =
    let s' = set_conn c (record (s.conns c) { awaiting = nothing }) s in
    if_elim (λ (x : Cell). x.pending ≡ s.pending) (s'.closed || (s'.conns c).closed) _ _ (λ _. refl)
      (λ _.
        if_elim (λ (x : Cell). x.pending ≡ s.pending) (leb r.expires_at now) _ _
          (λ _. refuse_answered c RelayCloseCode.ticket_expired s e)
          (λ _. rw used (refuse_answered c RelayCloseCode.ticket_reused s e)))

pub evict_oldest-drop : (used : List ℕ) → evict_oldest used ≡ drop (length used - 1024) used
unfolding evict_oldest
evict_oldest-drop [] = refl
evict_oldest-drop (oldest ∷ rest) =
    if_elim (λ (x : List ℕ). x ≡ drop (suc (length rest) - 1024) (oldest ∷ rest))
      (ltb max_used_tickets (suc (length rest))) _ _
      (λ e.
        let more : suc (length rest) - 1024 ≡ suc (length rest - 1024) = ground arith in
        rw more (evict_oldest-drop rest))
      (λ e. let fits : suc (length rest) - 1024 ≡ 0 = ground arith in rw fits refl)

add_new : (t : ℕ) (used : List ℕ) → member t used ≡ false → add t used ≡ used ++ t ∷ []
unfolding add member
add_new t [] e = refl
add_new t (j ∷ used) e = ground (arith, add_new t used)

-- A new ticket goes behind the used ones, of which the oldest are dropped beyond 1024.
pub mark_ticket_used_new :
    (t : ℕ) (used : List ℕ)
    → member t used ≡ false
    → mark_ticket_used t used ≡ drop (length (used ++ t ∷ []) - 1024) (used ++ t ∷ [])
unfolding mark_ticket_used
mark_ticket_used_new t used e = rw (add_new t used e) (evict_oldest-drop (used ++ t ∷ []))
