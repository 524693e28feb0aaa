-- ===== src/Relay/Cell/Invariant.antt =====
-- The invariant of packages/relay-core/src/cell.ts: what its maps say of the connections they name.
pub mod Swap
pub mod Cleanup
pub mod Detach
pub mod Keeps
pub mod Idle
pub mod Register
pub mod Proof
pub mod Pending
pub mod Splice
pub mod Dial
pub mod Spent
pub mod Reach
use pherry.Base.{ℕ, ◌≤◌, ◌<◌, ◌≡◌, ◌≢◌, ◌⊎◌, Bool, true, false, Option, none, some}
use pherry.Base.Maps.{lookup}
use pherry.Relay.Cell.State.{
  Cell, Conn, ConnRole, unclassified, control_pending, control, controller_data, host_data, Bridge,
  PendingBridge, nothing, host_key, ticket_record,
}

-- What a connection's own fields say together.
pub record IsSound (conn : Conn) : Type 0 where
  pub fresh_ticket : conn.role ≡ unclassified → conn.ticket ≡ none
  pub wait_ticket :
      (t : ℕ)
      → conn.awaiting ≡ ticket_record t
      → (conn.role ≡ controller_data) × (conn.ticket ≡ none)
  pub wait_key :
      (h : ℕ) → conn.awaiting ≡ host_key h → (conn.role ≡ control_pending) × (conn.challenge ≡ none)
  pub challenged : conn.role ≢ control_pending → conn.challenge ≡ none
  pub bound : conn.challenge ≢ none → (conn.host_id ≢ none) × (conn.host_static_pub ≢ none)
  pub unaccepted : conn.accepted ≡ false → conn.role ≡ unclassified

-- The registered connection of host `h`: open, past its proof, and with its data key.
pub record IsHost (h : ℕ) (conn : Conn) : Type 0 where
  pub role : conn.role ≡ control
  pub host_id : conn.host_id ≡ some h
  pub alive : conn.closed ≡ false
  pub keyed : conn.data_key ≢ none

-- The controller that waits under ticket `t`: open, and bound to no peer yet.
pub record IsPending (t : ℕ) (p : PendingBridge) (conn : Conn) : Type 0 where
  pub named : p.ticket ≡ t
  pub role : conn.role ≡ controller_data
  pub ticket : conn.ticket ≡ some t
  pub host_id : conn.host_id ≡ some p.host_id
  pub alive : conn.closed ≡ false
  pub unwired : conn.raw_peer ≡ none

-- Bridge `i` links two data connections under its ticket, each the raw peer of the other.
pub record IsBridge (i : ℕ) (b : Bridge) (controller host : Conn) : Type 0 where
  pub controller_link : controller.bridge ≡ some i
  pub host_link : host.bridge ≡ some i
  pub controller_peer : controller.raw_peer ≡ some b.host
  pub host_peer : host.raw_peer ≡ some b.controller
  pub controller_role : controller.role ≡ controller_data
  pub host_role : host.role ≡ host_data
  pub controller_ticket : controller.ticket ≡ some b.ticket
  pub host_ticket : host.ticket ≡ some b.ticket

-- `peer` receives the raw bytes of connection `c`: both dialed with one ticket, for one host, one as
-- the controller and one as the host, and `c` receives the raw bytes of the peer.
pub record IsWired (c : ℕ) (conn peer : Conn) : Type 0 where
  pub ticketed : conn.ticket ≢ none
  pub ticket : peer.ticket ≡ conn.ticket
  pub host_id : peer.host_id ≡ conn.host_id
  pub roles :
      ((conn.role ≡ controller_data) × (peer.role ≡ host_data))
      ⊎ ((conn.role ≡ host_data) × (peer.role ≡ controller_data))
  pub back : peer.raw_peer ≡ some c

pub record Inv (s : Cell) : Type 0 where
  pub sound : (c : ℕ) → IsSound (s.conns c)
  pub hosts : (h c : ℕ) → lookup h s.hosts ≡ some c → IsHost h (s.conns c)
  pub pending :
      (t : ℕ) (p : PendingBridge)
      → lookup t s.pending ≡ some p
      → IsPending t p (s.conns p.controller)
  -- The timer of every pending bridge runs, for its ticket.
  pub timers :
      (t : ℕ) (p : PendingBridge)
      → lookup t s.pending ≡ some p
      → (lookup p.timer s.timers ≡ some t) × (p.timer < s.next_timer)
  pub bridges :
      (i : ℕ) (b : Bridge)
      → lookup i s.bridges ≡ some b
      → IsBridge i b (s.conns b.controller) (s.conns b.host) × (i < s.next_bridge)
  pub linked :
      (c i : ℕ)
      → (s.conns c).bridge ≡ some i
      → (i < s.next_bridge)
        × ((b : Bridge) → lookup i s.bridges ≡ some b → (b.controller ≡ c) ⊎ (b.host ≡ c))
  pub wired : (c d : ℕ) → (s.conns c).raw_peer ≡ some d → IsWired c (s.conns c) (s.conns d)

-- No map names connection `c`.
pub record IsFree (c : ℕ) (s : Cell) : Type 0 where
  pub not_host : (h : ℕ) → lookup h s.hosts ≢ some c
  pub not_pending : (t : ℕ) (p : PendingBridge) → lookup t s.pending ≡ some p → p.controller ≢ c
  pub not_bridged :
      (i : ℕ) (b : Bridge) → lookup i s.bridges ≡ some b → (b.controller ≢ c) × (b.host ≢ c)
