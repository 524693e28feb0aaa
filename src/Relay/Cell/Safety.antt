-- ===== src/Relay/Cell/Safety.antt =====
-- What packages/relay-core/src/cell.ts guarantees in every state that it reaches, and on a refused
-- data dial.
use pherry.Base.{ℕ, ◌≡◌, ◌≢◌, ◌⊎◌, refl, true, false, List, none, some}
use pherry.Base.Maps.{lookup}
use pherry.Relay.HostProof.{Primitives}
use pherry.Relay.Cell.State.{
  Cell, control, controller_data, host_data, PendingBridge, Bridge, create_cell,
}
use pherry.Relay.Cell.Events.{Event, step, run}
use pherry.Relay.Cell.Invariant.Reach.{reachable-Inv}
use pherry.Relay.Cell.Invariant.Detach.{detach-Inv}

module _ (k : Primitives) (cell_id : ℕ) (es : List Event) where
  abbrev reached : Cell
  reached = run k es (create_cell cell_id)

  -- In every reachable state, if the raw bytes of connection `c` go to connection `d`, then both
  -- dialed with one ticket and for one host, one as the controller and one as the host, and the raw
  -- bytes of `d` go to `c`.
  pub reachable_wired :
      (c d : ℕ)
      → (reached.conns c).raw_peer ≡ some d
      → ((reached.conns c).ticket ≢ none)
        × ((reached.conns d).ticket ≡ (reached.conns c).ticket)
        × ((reached.conns d).host_id ≡ (reached.conns c).host_id)
        × (((reached.conns c).role ≡ controller_data) × ((reached.conns d).role ≡ host_data)
            ⊎ ((reached.conns c).role ≡ host_data) × ((reached.conns d).role ≡ controller_data))
        × ((reached.conns d).raw_peer ≡ some c)
  reachable_wired c d e =
      let w = (reachable-Inv k cell_id es).wired c d e in
      (w.ticketed, w.ticket, w.host_id, w.roles, w.back)

  -- In every reachable state, the connection under which a host is registered is open, in the role of
  -- a control connection, bound to that host, and holds a data key.
  pub reachable_hosts :
      (h c : ℕ)
      → lookup h reached.hosts ≡ some c
      → ((reached.conns c).role ≡ control)
        × ((reached.conns c).host_id ≡ some h)
        × ((reached.conns c).closed ≡ false)
        × ((reached.conns c).data_key ≢ none)
  reachable_hosts h c e =
      let w = (reachable-Inv k cell_id es).hosts h c e in (w.role, w.host_id, w.alive, w.keyed)

  -- In every reachable state, a pending bridge has a running timer for its ticket, and its controller
  -- is open, holds that ticket, and sends its bytes to nobody.
  pub reachable_pending :
      (t : ℕ) (p : PendingBridge)
      → lookup t reached.pending ≡ some p
      → (lookup p.timer reached.timers ≡ some t)
        × ((reached.conns p.controller).role ≡ controller_data)
        × ((reached.conns p.controller).ticket ≡ some t)
        × ((reached.conns p.controller).closed ≡ false)
        × ((reached.conns p.controller).raw_peer ≡ none)
  reachable_pending t p e =
      let v = reachable-Inv k cell_id es in
      let w = v.pending t p e in ((v.timers t p e).0, w.role, w.ticket, w.alive, w.unwired)

  -- In every reachable state, a bridge's two connections dialed with its ticket and send their bytes
  -- to each other.
  pub reachable_bridges :
      (i : ℕ) (b : Bridge)
      → lookup i reached.bridges ≡ some b
      → ((reached.conns b.controller).ticket ≡ some b.ticket)
        × ((reached.conns b.host).ticket ≡ some b.ticket)
        × ((reached.conns b.controller).raw_peer ≡ some b.host)
        × ((reached.conns b.host).raw_peer ≡ some b.controller)
  reachable_bridges i b e =
      let w = ((reachable-Inv k cell_id es).bridges i b e).0 in
      (w.controller_ticket, w.host_ticket, w.controller_peer, w.host_peer)

  -- When the peer of an accepted connection closes in a reachable state, no registration, pending
  -- bridge or bridge names the connection afterwards.
  pub peer_closes_forgets :
      (c : ℕ)
      → (reached.conns c).accepted ≡ true
      → (h t i ticket other timer : ℕ) (nonce : List ℕ)
      → let s' = step k (Event.peer_closes c) reached in
        (lookup h s'.hosts ≢ some c)
        × (lookup t s'.pending
            ≢ some (record {
              ticket = ticket;
              host_id = other;
              controller = c;
              timer = timer;
              nonce = nonce;
            }))
        × (lookup i s'.bridges ≢ some (record { ticket = ticket; controller = c; host = other }))
        × (lookup i s'.bridges ≢ some (record { ticket = ticket; controller = other; host = c }))
  unfolding step
  peer_closes_forgets c a h t i ticket other timer nonce =
      rw (a, step)
        (let f = (detach-Inv c (reachable-Inv k cell_id es)).1 in
          (
            f.not_host h,
            (λ e. f.not_pending t _ e refl),
            (λ e. (f.not_bridged i _ e).0 refl),
            λ e. (f.not_bridged i _ e).1 refl,
          ))
