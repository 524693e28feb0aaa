-- ===== src/Relay/Cell/State.antt =====
-- packages/relay-core/src/cell.ts: the records of the cell, and how a connection is refused,
-- detached and cleaned up.
-- A connection is a number, by which the records name it where the source holds a reference. Hosts,
-- tickets and timer handles are numbers too: the code only compares them.
use pherry.Base.{ℕ, Bool, true, false, List, [], ◌∷◌, ◌++◌, Option, none, some, ◌==◌, if◌then◌else◌}
use pherry.Base.Maps.{lookup, delete, update}
use pherry.Relay.HostProof.{HostChallengeSecret}

-- `RelayCloseCode` of messages.ts.
pub data RelayCloseCode : Type 0 where
  unknown_host proof_failed bad_ticket ticket_expired ticket_reused : RelayCloseCode
  bridge_timeout data_auth_failed drained protocol_error : RelayCloseCode

-- `DataAuthMessage.role` of messages.ts.
pub data DialRole : Type 0 where
  host controller : DialRole

-- `OuterMessage` of messages.ts, decoded: byte fields are bytes.
pub data OuterMessage : Type 0 where
  host_hello : ℕ → OuterMessage
  host_challenge : ℕ → List ℕ → List ℕ → OuterMessage
  host_proof : List ℕ → OuterMessage
  host_registered : ℕ → OuterMessage
  conn_open : ℕ → List ℕ → OuterMessage
  data_auth : DialRole → ℕ → Option (List ℕ) → OuterMessage
  data_ready drain : OuterMessage
  close : RelayCloseCode → OuterMessage

-- `ConnRole`
pub data ConnRole : Type 0 where
  unclassified control_pending control controller_data host_data : ConnRole

-- The authorizer's answer for which a connection waits, between the two halves of an async method.
pub data Awaiting : Type 0 where
  nothing : Awaiting
  host_key : ℕ → Awaiting
  ticket_record : ℕ → Awaiting

-- `Conn`, with the phase of its `OuterConnection` (`closed`, `raw`) and, from the raw handler that
-- `#splice` registers, the connection to which that sends (`raw_peer`).
pub record Conn : Type 0 where
  pub accepted : Bool
  pub closed : Bool
  pub raw : Bool
  pub role : ConnRole
  pub awaiting : Awaiting
  pub host_id : Option ℕ
  pub host_static_pub : Option (List ℕ)
  pub challenge : Option HostChallengeSecret
  pub data_key : Option (List ℕ)
  pub ticket : Option ℕ
  pub bridge : Option ℕ
  pub raw_peer : Option ℕ

-- `PendingBridge`
pub record PendingBridge : Type 0 where
  pub ticket : ℕ
  pub host_id : ℕ
  pub controller : ℕ
  pub timer : ℕ
  pub nonce : List ℕ

-- `Bridge`; `#bridges` is a set of these by identity, for which each has a number.
pub record Bridge : Type 0 where
  pub ticket : ℕ
  pub controller : ℕ
  pub host : ℕ

-- What the cell writes to a connection before it is raw, and bytes that it forwards: from, to, bytes.
pub data Output : Type 0 where
  sends : ℕ → OuterMessage → Output
  forwards : ℕ → ℕ → List ℕ → Output

-- The fields of `CellImpl`, with the timers that run (handle and ticket) and the output so far.
pub record Cell : Type 0 where
  pub cell_id : ℕ
  pub conns : ℕ → Conn
  pub hosts : List (ℕ × ℕ)
  pub pending : List (ℕ × PendingBridge)
  pub bridges : List (ℕ × Bridge)
  pub next_bridge : ℕ
  pub used_tickets : List ℕ
  pub timers : List (ℕ × ℕ)
  pub next_timer : ℕ
  pub draining : Bool
  pub closed : Bool
  pub output : List Output

abbrev pub new_conn : Conn
new_conn = record {
  accepted = false;
  closed = false;
  raw = false;
  role = unclassified;
  awaiting = nothing;
  host_id = none;
  host_static_pub = none;
  challenge = none;
  data_key = none;
  ticket = none;
  bridge = none;
  raw_peer = none;
}

unfoldable pub create_cell : ℕ → Cell
create_cell cell_id = record {
  cell_id = cell_id;
  conns = λ _. new_conn;
  hosts = [];
  pending = [];
  bridges = [];
  next_bridge = 0;
  used_tickets = [];
  timers = [];
  next_timer = 0;
  draining = false;
  closed = false;
  output = [];
}

abbrev pub set_conn : ℕ → Conn → Cell → Cell
set_conn c conn s = record s { conns = update s.conns c conn }

-- `conn.outer.send`: nothing once closed.
unfoldable pub send : ℕ → OuterMessage → Cell → Cell
send c message s =
    if (s.conns c).closed then s else record s { output = s.output ++ sends c message ∷ [] }

-- `conn.outer.close`
unfoldable pub close_conn : ℕ → Cell → Cell
close_conn c s = set_conn c (record (s.conns c) { closed = true }) s

-- `#cleanup`, in its four steps.
unfoldable pub drop_host : ℕ → Cell → Cell
drop_host c s = elim (s.conns c).host_id [
  | none ↦ s
  | some h ↦ elim (lookup h s.hosts) [
    | none ↦ s
    | some c' ↦ if c' == c then record s { hosts = delete h s.hosts } else s
  ]
]

unfoldable pub drop_pending : ℕ → Cell → Cell
drop_pending c s = elim (s.conns c).ticket [
  | none ↦ s
  | some t ↦ elim (lookup t s.pending) [
    | none ↦ s
    | some p ↦
        if p.controller == c
        then record s { timers = delete p.timer s.timers; pending = delete t s.pending }
        else s
  ]
]

unfoldable pub unlink : ℕ → Cell → Cell
unlink c s = set_conn c (record (s.conns c) { bridge = none }) s

unfoldable pub drop_bridge : ℕ → Cell → Cell
drop_bridge c s = elim (s.conns c).bridge [
  | none ↦ s
  | some i ↦ elim (lookup i s.bridges) [
    | none ↦ s
    | some b ↦
        let peer = if b.controller == c then b.host else b.controller in
        close_conn peer (unlink peer (record s { bridges = delete i s.bridges }))
  ]
]

unfoldable pub drop_key : ℕ → Cell → Cell
drop_key c s = set_conn c (record (s.conns c) { bridge = none; data_key = none }) s

unfoldable pub cleanup : ℕ → Cell → Cell
cleanup c s = drop_key c (drop_bridge c (drop_pending c (drop_host c s)))

-- `#refuse`
unfoldable pub refuse : ℕ → RelayCloseCode → Cell → Cell
refuse c code s = close_conn c (cleanup c (send c (close code) s))

-- `#detach`
unfoldable pub detach : ℕ → Cell → Cell
detach c s = close_conn c (cleanup c s)
