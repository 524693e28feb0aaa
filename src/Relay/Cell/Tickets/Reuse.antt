-- ===== src/Relay/Cell/Tickets/Reuse.antt =====
-- The used tickets of packages/relay-core/src/cell.ts: a ticket that opened a bridge opens no other while
-- it is in the window.
use pherry.Base.{
  ℕ, suc, ◌+◌, ◌-◌, ◌<◌, ◌≤◌, ◌≡◌, refl, ap, ◌∙◌, inl, inr, true, false, List, [], ◌∷◌, ◌++◌,
  Option, none, arith, if_elim, length, drop, append_assoc, Bool-cases, length-append,
  drop-append_le,
}
use pherry.Base.Maps.{member, add}
use pherry.Relay.Cell.State.{Cell, send, conn_open, OuterMessage}
use pherry.Relay.Cell.Bridging.{mark_ticket_used, bridge_controller, open_bridge, TicketRecord}
use pherry.Relay.Cell.Tickets.{bridge_controller_used, mark_ticket_used_new, evict_oldest-drop}

-- A ticket that is used, and at most `n` newer ones.
record InWindow (n t : ℕ) (used : List ℕ) : Type 0 where
  older : List ℕ
  newer : List ℕ
  split : used ≡ older ++ t ∷ newer
  few : length newer ≤ n

member_here : (t : ℕ) (older newer : List ℕ) → member t (older ++ t ∷ newer) ≡ true
unfolding member
member_here t [] newer = ground arith
member_here t (j ∷ older) newer = ground (arith, member_here t older newer)

add_old : (t : ℕ) (used : List ℕ) → member t used ≡ true → add t used ≡ used
unfolding add member
add_old t [] e = cc
add_old t (j ∷ used) e = ground (arith, add_old t used)

-- What is dropped from the front of a window of 1024 does not reach a ticket with fewer newer ones.
drop-InWindow :
    (n t : ℕ) (used : List ℕ)
    → n < 1024
    → InWindow n t used
    → InWindow n t (drop (length used - 1024) used)
drop-InWindow n t used h w =
    let sizes : length used ≡ length w.older + suc (length w.newer) =
      ap length w.split ∙ length-append w.older (t ∷ w.newer) in
    let few = w.few in
    record {
      older = drop (length used - 1024) w.older;
      newer = w.newer;
      split =
          ap (drop (length used - 1024)) w.split
          ∙ drop-append_le (length used - 1024) w.older (t ∷ w.newer) (omega arith);
      few = few;
    }

mark_ticket_used-InWindow :
    (n t x : ℕ) (used : List ℕ)
    → suc n < 1024
    → InWindow n t used
    → InWindow (suc n) t (mark_ticket_used x used)
unfolding mark_ticket_used
mark_ticket_used-InWindow n t x used h w = elim (Bool-cases (member x used)) [
  | inl old ↦
      let few = w.few in
      rw (add_old x used old, evict_oldest-drop used)
        (drop-InWindow (suc n) t used h
          (record { older = w.older; newer = w.newer; split = w.split; few = omega arith }))
  | inr new ↦
      let few = w.few in
      rw (mark_ticket_used_new x used new) (
        drop-InWindow (suc n) t (used ++ x ∷ []) h (record {
          older = w.older;
          newer = w.newer ++ x ∷ [];
          split = ap (λ l. l ++ x ∷ []) w.split ∙ append_assoc w.older (t ∷ w.newer) (x ∷ []);
          few = rw (length-append w.newer (x ∷ [])) (omega arith);
        }))
]

-- The used tickets, when bridges for more tickets have been opened.
abbrev pub mark_all : List ℕ → List ℕ → List ℕ
mark_all [] used = used
mark_all (x ∷ tickets) used = mark_all tickets (mark_ticket_used x used)

mark_all-member :
    (tickets : List ℕ) (n t : ℕ) (used : List ℕ)
    → n + length tickets < 1024
    → InWindow n t used
    → member t (mark_all tickets used) ≡ true
mark_all-member [] n t used h w = rw w.split (member_here t w.older w.newer)
mark_all-member (x ∷ tickets) n t used h w =
    mark_all-member tickets (suc n) t (mark_ticket_used x used) (omega arith)
      (mark_ticket_used-InWindow n t x used (omega arith) w)

pub send-used : (c : ℕ) (m : OuterMessage) (s : Cell) → (send c m s).used_tickets ≡ s.used_tickets
unfolding send
send-used c m s =
    if_elim (λ (x : Cell). x.used_tickets ≡ s.used_tickets) (s.conns c).closed _ _ (λ _. refl)
      (λ _. refl)

pub open_bridge-used :
    (c t host host_conn : ℕ) (nonce : List ℕ) (s : Cell)
    → (open_bridge c t host host_conn nonce s).used_tickets ≡ mark_ticket_used t s.used_tickets
unfolding open_bridge
open_bridge-used c t host host_conn nonce s = send-used host_conn (conn_open t nonce) _

-- A ticket for which a bridge was opened opens no other in a later cell in which fewer than 1024 more
-- tickets are marked, if it was not used before and the connection holds no ticket yet.
pub bridge_controller-open_bridge :
    (c t host host_conn : ℕ) (nonce : List ℕ) (s : Cell)
    → member t s.used_tickets ≡ false
    → (tickets : List ℕ) → length tickets < 1024
    → (later : Cell)
    → later.used_tickets ≡ mark_all tickets (open_bridge c t host host_conn nonce s).used_tickets
    → (again : ℕ) (answer : Option TicketRecord) (now : ℕ) (drawn : List ℕ)
    → (later.conns again).ticket ≡ none
    → (bridge_controller again t answer now drawn later).pending ≡ later.pending
bridge_controller-open_bridge c t host host_conn nonce s new tickets h later marked again answer now
      drawn free =
    let first : InWindow 0 t (s.used_tickets ++ t ∷ []) = record {
      older = s.used_tickets;
      newer = [];
      split = refl;
      few = omega arith;
    } in
    let opened : InWindow 0 t (open_bridge c t host host_conn nonce s).used_tickets =
      rw (open_bridge-used c t host host_conn nonce s, mark_ticket_used_new t s.used_tickets new)
        (drop-InWindow 0 t (s.used_tickets ++ t ∷ []) (omega arith) first) in
    bridge_controller_used again t answer now drawn later free (
      ap (member t) marked
      ∙ mark_all-member tickets 0 t (open_bridge c t host host_conn nonce s).used_tickets
          (omega arith) opened)
