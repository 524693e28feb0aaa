-- ===== src/Relay/Cell/Bridging.antt =====
-- packages/relay-core/src/cell.ts: `#beginControllerBridge`, `#markTicketUsed`, `#onBridgeTimeout`,
-- `#completeHostDial` and `#splice`.
use pherry.Base.{
  ℕ, suc, Bool, true, false, List, [], ◌∷◌, Option, none, some, ltb, leb, if◌then◌else◌, ◌||◌,
  length,
}
use pherry.Base.Maps.{lookup, insert, delete, member, add}
use pherry.Relay.HostProof.{Primitives, verify_data_auth_mac}
use pherry.Relay.Cell.State.{
  Cell, PendingBridge, conn_open, data_ready, bad_ticket, ticket_expired, ticket_reused,
  unknown_host, bridge_timeout, data_auth_failed, drained, ticket_record, nothing, set_conn, send,
  refuse,
}

abbrev pub max_used_tickets : ℕ
max_used_tickets = 1024

-- `TicketRecord` of authorizer.ts.
pub record TicketRecord : Type 0 where
  pub host_id : ℕ
  pub expires_at : ℕ

-- `#beginControllerBridge` up to the authorizer's answer.
unfoldable pub begin_controller_bridge : ℕ → ℕ → Cell → Cell
begin_controller_bridge c ticket s =
    if s.draining
    then refuse c drained s
    else set_conn c (record (s.conns c) { awaiting = ticket_record ticket }) s

-- `while (this.#usedTickets.size > MAX_USED_TICKETS)`, from the oldest on.
unfoldable pub evict_oldest : List ℕ → List ℕ
evict_oldest [] = []
evict_oldest (oldest ∷ rest) =
    let evicted = evict_oldest rest in
    if ltb max_used_tickets (length (oldest ∷ rest)) then evicted else oldest ∷ rest

-- `#markTicketUsed`
unfoldable pub mark_ticket_used : ℕ → List ℕ → List ℕ
mark_ticket_used ticket used = evict_oldest (add ticket used)

-- The end of `#beginControllerBridge`, once every check has passed.
unfoldable pub open_bridge : ℕ → ℕ → ℕ → ℕ → List ℕ → Cell → Cell
open_bridge c ticket host_id host_conn nonce s =
    let timer = s.next_timer in
    send host_conn (conn_open ticket nonce) (
      set_conn c (record (s.conns c) { ticket = some ticket; host_id = some host_id })
        (record s {
          used_tickets = mark_ticket_used ticket s.used_tickets;
          timers = insert timer ticket s.timers;
          next_timer = suc timer;
          pending =
              insert ticket
                (record {
                  ticket = ticket;
                  host_id = host_id;
                  controller = c;
                  timer = timer;
                  nonce = nonce;
                })
                s.pending;
        }))

-- `#beginControllerBridge` from the answer on, at the clock's `now` and with the nonce that is drawn.
unfoldable pub bridge_controller : ℕ → ℕ → Option TicketRecord → ℕ → List ℕ → Cell → Cell
bridge_controller c ticket answer now nonce s₀ =
    let s = set_conn c (record (s₀.conns c) { awaiting = nothing }) s₀ in
    if s.closed || (s.conns c).closed then s else elim answer [
      | none ↦ refuse c bad_ticket s
      | some r ↦
          if leb r.expires_at now
          then refuse c ticket_expired s
          else if member ticket s.used_tickets
          then refuse c ticket_reused s
          else elim (lookup r.host_id s.hosts) [
            | none ↦ refuse c unknown_host s
            | some host_conn ↦ open_bridge c ticket r.host_id host_conn nonce s
          ]
    ]

-- `#onBridgeTimeout`, when the timer fires.
unfoldable pub on_bridge_timeout : ℕ → Cell → Cell
on_bridge_timeout ticket s = elim (lookup ticket s.pending) [
  | none ↦ s
  | some p ↦ refuse p.controller bridge_timeout (record s { pending = delete ticket s.pending })
]

-- The raw handlers, and the bridge.
unfoldable pub link : ℕ → ℕ → ℕ → Cell → Cell
link controller host ticket s =
    let i = s.next_bridge in
    let half =
      set_conn controller (record (s.conns controller) { bridge = some i; raw_peer = some host })
        (record s {
          bridges =
              insert i (record { ticket = ticket; controller = controller; host = host }) s.bridges;
          next_bridge = suc i;
        }) in
    set_conn host (record (half.conns host) { bridge = some i; raw_peer = some controller }) half

-- `goRaw`: what is buffered is passed on to the other side, which is a forward like any later one.
unfoldable pub go_raw : ℕ → Cell → Cell
go_raw c s = set_conn c (record (s.conns c) { raw = true }) s

-- `#splice`
unfoldable pub splice : ℕ → ℕ → ℕ → Cell → Cell
splice controller host ticket s =
    let told = send host data_ready (send controller data_ready (link controller host ticket s)) in
    go_raw host (go_raw controller told)

module _ (k : Primitives) where
  -- Whether a data dial proves to come from the registered host.
  unfoldable pub dial_authentic : ℕ → PendingBridge → Option (List ℕ) → Cell → Bool
  dial_authentic ticket p mac s = elim (lookup p.host_id s.hosts) [
    | none ↦ false
    | some control ↦ elim (s.conns control).data_key [
      | none ↦ false
      | some key ↦ elim mac [
        | none ↦ false
        | some bytes ↦ verify_data_auth_mac k key s.cell_id ticket p.nonce bytes
      ]
    ]
  ]

  -- `#completeHostDial` once the pending bridge is found.
  unfoldable pub dial : ℕ → ℕ → PendingBridge → Option (List ℕ) → Cell → Cell
  dial c ticket p mac s =
      if dial_authentic ticket p mac s
      then splice p.controller c ticket (
          set_conn c (record (s.conns c) { ticket = some ticket; host_id = some p.host_id })
            (record s { timers = delete p.timer s.timers; pending = delete ticket s.pending }))
      else refuse c data_auth_failed s

  -- `#completeHostDial`
  unfoldable pub complete_host_dial : ℕ → ℕ → Option (List ℕ) → Cell → Cell
  complete_host_dial c ticket mac s = elim (lookup ticket s.pending) [
    | none ↦ refuse c bad_ticket s
    | some p ↦ dial c ticket p mac s
  ]
