-- ===== src/Relay/Cell/Events.antt =====
-- packages/relay-core/src/cell.ts: `#dispatch`, `#classify`, `drain`, `close`, and the events that
-- reach a running cell.
use pherry.Base.{ℕ, Bool, true, List, [], ◌∷◌, ◌++◌, Option, none, some, if◌then◌else◌, ◌||◌}
use pherry.Base.Maps.{lookup, delete}
use pherry.Relay.HostProof.{Primitives}
use pherry.Relay.Cell.State.{
  Cell, ConnRole, unclassified, control_pending, control, controller_data, host_data, DialRole,
  OuterMessage, host_hello, data_auth, drain, close, protocol_error, PendingBridge, Bridge,
  forwards, Awaiting, nothing, host_key, ticket_record, new_conn, set_conn, send, close_conn,
  refuse, detach,
}
use pherry.Relay.Cell.Registration.{begin_registration, challenge_host, on_proof}
use pherry.Relay.Cell.Bridging.{
  TicketRecord, begin_controller_bridge, bridge_controller, on_bridge_timeout, complete_host_dial,
}

abbrev pub set_role : ℕ → ConnRole → Cell → Cell
set_role c role s = set_conn c (record (s.conns c) { role = role }) s

-- `#accept`
unfoldable pub accept : ℕ → Cell → Cell
accept c s =
    if s.closed
    then set_conn c (record (s.conns c) { closed = true }) s
    else set_conn c (record new_conn { accepted = true }) s

-- `drain`
unfoldable pub tell_hosts : List (ℕ × ℕ) → Cell → Cell
tell_hosts [] s = s
tell_hosts ((h, c) ∷ hosts) s = tell_hosts hosts (send c drain s)

unfoldable pub drain_cell : Cell → Cell
drain_cell s =
    if s.closed || s.draining then s else tell_hosts s.hosts (record s { draining = true })

-- `close`, a loop for each collection.
unfoldable pub close_pending : List (ℕ × PendingBridge) → Cell → Cell
close_pending [] s = s
close_pending ((t, p) ∷ pending) s =
    close_pending pending (close_conn p.controller (record s { timers = delete p.timer s.timers }))

unfoldable pub close_bridges : List (ℕ × Bridge) → Cell → Cell
close_bridges [] s = s
close_bridges ((i, b) ∷ bridges) s =
    close_bridges bridges (close_conn b.host (close_conn b.controller s))

unfoldable pub close_hosts : List (ℕ × ℕ) → Cell → Cell
close_hosts [] s = s
close_hosts ((h, c) ∷ hosts) s = close_hosts hosts (close_conn c s)

unfoldable pub close_cell : Cell → Cell
close_cell s =
    let first = close_pending s.pending (record s { closed = true }) in
    let second = close_bridges s.bridges (record first { pending = [] }) in
    let third = close_hosts s.hosts (record second { bridges = [] }) in
    if s.closed then s else record third { hosts = [] }

-- A chunk on a raw connection: the handler sends it to the peer, which drops it once closed.
unfoldable pub forward : ℕ → List ℕ → Cell → Cell
forward c bytes s = elim (s.conns c).raw_peer [
  | none ↦ s
  | some peer ↦
      if (s.conns peer).closed
      then s
      else record s { output = s.output ++ forwards c peer bytes ∷ [] }
]

-- What the world does to a cell.
pub data Event : Type 0 where
  connects : ℕ → Event
  receives : ℕ → List OuterMessage → Bool → Event
  receives_raw : ℕ → List ℕ → Event
  peer_closes : ℕ → Event
  -- The authorizer's answers, with the secret and nonces that are drawn and the time.
  answers_key : ℕ → Option (List ℕ) → List ℕ → List ℕ → Event
  answers_ticket : ℕ → Option TicketRecord → ℕ → List ℕ → Event
  fails : ℕ → Event
  fires : ℕ → Event
  drains closes : Event

-- The authorizer's promise is rejected: `#fail`.
unfoldable pub fail_answer : ℕ → Awaiting → Cell → Cell
fail_answer c nothing s = s
fail_answer c awaiting s =
    refuse c protocol_error (set_conn c (record (s.conns c) { awaiting = nothing }) s)

module _ (k : Primitives) where
  -- `#classify`
  unfoldable pub classify : ℕ → OuterMessage → Cell → Cell
  classify c (host_hello host_id) s = begin_registration c host_id (set_role c control_pending s)
  classify c (data_auth DialRole.controller ticket mac) s =
      begin_controller_bridge c ticket (set_role c controller_data s)
  classify c (data_auth DialRole.host ticket mac) s =
      complete_host_dial k c ticket mac (set_role c host_data s)
  classify c message s = refuse c protocol_error s

  unfoldable pub on_control : ℕ → OuterMessage → Cell → Cell
  on_control c (close code) s = detach c s
  on_control c message s = refuse c protocol_error s

  -- `#dispatch`
  unfoldable pub dispatch : ℕ → OuterMessage → Cell → Cell
  dispatch c message s = elim (s.conns c).role [
    | unclassified ↦ classify c message s
    | control_pending ↦ on_proof k c message s
    | control ↦ on_control c message s
    | controller_data ↦ refuse c protocol_error s
    | host_data ↦ refuse c protocol_error s
  ]

  -- What one inbound chunk holds for `OuterConnection.#receive`: messages, handled until one makes the
  -- connection raw, and maybe an error of the framing behind them. The loop does not look at
  -- `closed` again.
  unfoldable pub messages : ℕ → List OuterMessage → Bool → Cell → Cell
  messages c [] malformed s =
      if (s.conns c).raw then s else if malformed then refuse c protocol_error s else s
  messages c (message ∷ rest) malformed s =
      let next = messages c rest malformed (dispatch c message s) in
      if (s.conns c).raw then s else next

  unfoldable pub answer_key : ℕ → Option (List ℕ) → List ℕ → List ℕ → Awaiting → Cell → Cell
  answer_key c static_pub secret nonce (host_key h) s =
      challenge_host k c h static_pub secret nonce s
  answer_key c static_pub secret nonce awaiting s = s

  unfoldable pub answer_ticket : ℕ → Option TicketRecord → ℕ → List ℕ → Awaiting → Cell → Cell
  answer_ticket c answer now nonce (ticket_record t) s = bridge_controller c t answer now nonce s
  answer_ticket c answer now nonce awaiting s = s

  -- One event. A closed connection receives nothing, and an event that cannot happen changes nothing.
  unfoldable pub step : Event → Cell → Cell
  step (connects c) s = if (s.conns c).accepted || (s.conns c).closed then s else accept c s
  step (receives c ms malformed) s =
      if (s.conns c).accepted
      then if (s.conns c).closed || (s.conns c).raw then s else messages c ms malformed s
      else s
  step (receives_raw c bytes) s =
      if (s.conns c).closed then s else if (s.conns c).raw then forward c bytes s else s
  step (peer_closes c) s = if (s.conns c).accepted then detach c s else s
  step (answers_key c key secret nonce) s = answer_key c key secret nonce (s.conns c).awaiting s
  step (answers_ticket c answer now nonce) s =
      answer_ticket c answer now nonce (s.conns c).awaiting s
  step (fails c) s = fail_answer c (s.conns c).awaiting s
  step (fires timer) s = elim (lookup timer s.timers) [
    | none ↦ s
    | some ticket ↦ on_bridge_timeout ticket (record s { timers = delete timer s.timers })
  ]
  step drains s = drain_cell s
  step closes s = close_cell s

  unfoldable pub run : List Event → Cell → Cell
  run [] s = s
  run (e ∷ es) s = run es (step e s)
