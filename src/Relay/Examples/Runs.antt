-- ===== src/Relay/Examples/Runs.antt =====
-- Runs of packages/relay-core/src/cell.ts: a host registers, a controller presents a ticket, and the
-- host dials.
use pherry.Base.{
  arith, sym, ◌∙◌, ℕ, ◌≡◌, ◌≢◌, ◌⊎◌, refl, true, false, List, [], ◌∷◌, ◌++◌, Option, none, some,
  ◌-◌, drop, length,
}
use pherry.Base.Maps.{lookup, insert, delete, member, add}
use pherry.Relay.Cell.Tickets.{complete_host_dial_refused, mark_ticket_used_new}
use pherry.Relay.Cell.Tickets.Once.{bridge_controller-run}
use pherry.Relay.Cell.Admission.{on_proof_registers}
use pherry.Channel.Keys.{constant_time_equal}
use pherry.Relay.HostProof.{
  Primitives, HostChallengeSecret, compute_mac, data_auth_mac, make_challenge, verify_proof,
  transcript, cell_data_auth_key, derive_data_auth_key, verify_data_auth_mac, data_auth_preimage,
}
use pherry.Relay.Cell.State.{
  Cell, control, controller_data, host_data, PendingBridge, Bridge, create_cell, host_hello,
  host_proof, data_auth, DialRole, send, close_conn, refuse, cleanup, drop_host, drop_pending,
  drop_bridge, drop_key, unlink, detach,
}
use pherry.Relay.Cell.Bridging.{
  begin_controller_bridge, bridge_controller, open_bridge, mark_ticket_used, evict_oldest,
  complete_host_dial, dial, dial_authentic, splice, link, go_raw,
}
use pherry.Relay.Cell.Registration.{
  begin_registration, challenge_host, on_proof, challenged, check_proof, drop_challenge, register,
  replace_host,
}
use pherry.Relay.Cell.Events.{
  Event, step, run, accept, messages, dispatch, classify, answer_key, answer_ticket,
}
use pherry.Relay.Cell.Safety.{
  reachable_wired, reachable_hosts, reachable_pending, reachable_bridges, peer_closes_forgets,
}

-- Lists for texts, keys and MACs: a MAC is its key.
abbrev toy : Primitives
toy = record {
  encode = λ i. i ∷ [];
  public_key = λ a. a;
  shared_secret = λ a b. some (7 ∷ []);
  hkdf = λ ikm salt info. ikm;
  hmac = λ key message. key;
  proof_info = 1 ∷ [];
  transcript_label = 2 ∷ [];
  data_auth_label = 3 ∷ [];
}

abbrev registers : List Event
registers =
    Event.connects 1
    ∷ Event.receives 1 (host_hello 9 ∷ []) false
    ∷ Event.answers_key 1 (some (8 ∷ [])) (6 ∷ []) (5 ∷ [])
    ∷ Event.receives 1 (host_proof (7 ∷ []) ∷ []) false
    ∷ []

abbrev waits : List Event
waits =
    registers
    ++ Event.connects 2
      ∷ Event.receives 2 (data_auth DialRole.controller 4 none ∷ []) false
      ∷ Event.answers_ticket 2 (some (record { host_id = 9; expires_at = 100 })) 50 (3 ∷ [])
      ∷ []

abbrev dials : List Event
dials =
    waits
    ++ Event.connects 3
      ∷ Event.receives 3 (data_auth DialRole.host 4 (some (7 ∷ [])) ∷ []) false
      ∷ []

registered : lookup 9 (run toy registers (create_cell 0)).hosts ≡ some 1
unfolding run step accept create_cell lookup insert delete member add send messages dispatch
    classify begin_registration answer_key challenge_host make_challenge on_proof challenged
    check_proof drop_challenge verify_proof compute_mac transcript constant_time_equal
    cell_data_auth_key derive_data_auth_key register replace_host close_conn begin_controller_bridge
    answer_ticket bridge_controller open_bridge mark_ticket_used evict_oldest complete_host_dial
    dial dial_authentic verify_data_auth_mac data_auth_mac data_auth_preimage splice link go_raw
    refuse cleanup drop_host drop_pending drop_bridge drop_key unlink detach
registered = refl

abbrev waiting : PendingBridge
waiting = record { ticket = 4; host_id = 9; controller = 2; timer = 0; nonce = 3 ∷ [] }

pends : lookup 4 (run toy waits (create_cell 0)).pending ≡ some waiting
unfolding run step accept create_cell lookup insert delete member add send messages dispatch
    classify begin_registration answer_key challenge_host make_challenge on_proof challenged
    check_proof drop_challenge verify_proof compute_mac transcript constant_time_equal
    cell_data_auth_key derive_data_auth_key register replace_host close_conn begin_controller_bridge
    answer_ticket bridge_controller open_bridge mark_ticket_used evict_oldest complete_host_dial
    dial dial_authentic verify_data_auth_mac data_auth_mac data_auth_preimage splice link go_raw
    refuse cleanup drop_host drop_pending drop_bridge drop_key unlink detach
pends = refl

bridged :
    lookup 0 (run toy dials (create_cell 0)).bridges
    ≡ some (record { ticket = 4; controller = 2; host = 3 })
unfolding run step accept create_cell lookup insert delete member add send messages dispatch
    classify begin_registration answer_key challenge_host make_challenge on_proof challenged
    check_proof drop_challenge verify_proof compute_mac transcript constant_time_equal
    cell_data_auth_key derive_data_auth_key register replace_host close_conn begin_controller_bridge
    answer_ticket bridge_controller open_bridge mark_ticket_used evict_oldest complete_host_dial
    dial dial_authentic verify_data_auth_mac data_auth_mac data_auth_preimage splice link go_raw
    refuse cleanup drop_host drop_pending drop_bridge drop_key unlink detach
bridged = refl

spliced : ((run toy dials (create_cell 0)).conns 2).raw_peer ≡ some 3
unfolding run step accept create_cell lookup insert delete member add send messages dispatch
    classify begin_registration answer_key challenge_host make_challenge on_proof challenged
    check_proof drop_challenge verify_proof compute_mac transcript constant_time_equal
    cell_data_auth_key derive_data_auth_key register replace_host close_conn begin_controller_bridge
    answer_ticket bridge_controller open_bridge mark_ticket_used evict_oldest complete_host_dial
    dial dial_authentic verify_data_auth_mac data_auth_mac data_auth_preimage splice link go_raw
    refuse cleanup drop_host drop_pending drop_bridge drop_key unlink detach
spliced = refl

accepted : ((run toy dials (create_cell 0)).conns 2).accepted ≡ true
unfolding run step accept create_cell lookup insert delete member add send messages dispatch
    classify begin_registration answer_key challenge_host make_challenge on_proof challenged
    check_proof drop_challenge verify_proof compute_mac transcript constant_time_equal
    cell_data_auth_key derive_data_auth_key register replace_host close_conn begin_controller_bridge
    answer_ticket bridge_controller open_bridge mark_ticket_used evict_oldest complete_host_dial
    dial dial_authentic verify_data_auth_mac data_auth_mac data_auth_preimage splice link go_raw
    refuse cleanup drop_host drop_pending drop_bridge drop_key unlink detach
accepted = refl

reachable_hosts_example :
    let s = run toy registers (create_cell 0) in
    ((s.conns 1).role ≡ control)
    × ((s.conns 1).host_id ≡ some 9)
    × ((s.conns 1).closed ≡ false)
    × ((s.conns 1).data_key ≢ none)
reachable_hosts_example = reachable_hosts toy 0 registers 9 1 registered

reachable_wired_example :
    let s = run toy dials (create_cell 0) in
    ((s.conns 2).ticket ≢ none)
    × ((s.conns 3).ticket ≡ (s.conns 2).ticket)
    × ((s.conns 3).host_id ≡ (s.conns 2).host_id)
    × (((s.conns 2).role ≡ controller_data) × ((s.conns 3).role ≡ host_data)
        ⊎ ((s.conns 2).role ≡ host_data) × ((s.conns 3).role ≡ controller_data))
    × ((s.conns 3).raw_peer ≡ some 2)
reachable_wired_example = reachable_wired toy 0 dials 2 3 spliced

reachable_pending_example :
    let s = run toy waits (create_cell 0) in
    (lookup 0 s.timers ≡ some 4)
    × ((s.conns 2).role ≡ controller_data)
    × ((s.conns 2).ticket ≡ some 4)
    × ((s.conns 2).closed ≡ false)
    × ((s.conns 2).raw_peer ≡ none)
reachable_pending_example = reachable_pending toy 0 waits 4 waiting pends

abbrev bridge : Bridge
bridge = record { ticket = 4; controller = 2; host = 3 }

reachable_bridges_example :
    let s = run toy dials (create_cell 0) in
    ((s.conns 2).ticket ≡ some 4)
    × ((s.conns 3).ticket ≡ some 4)
    × ((s.conns 2).raw_peer ≡ some 3)
    × ((s.conns 3).raw_peer ≡ some 2)
reachable_bridges_example = reachable_bridges toy 0 dials 0 bridge bridged

peer_closes_forgets_example :
    let s' = step toy (Event.peer_closes 2) (run toy dials (create_cell 0)) in
    (lookup 9 s'.hosts ≢ some 2)
    × (lookup 4 s'.pending
        ≢ some (record { ticket = 4; host_id = 3; controller = 2; timer = 0; nonce = 3 ∷ [] }))
    × (lookup 0 s'.bridges ≢ some (record { ticket = 4; controller = 2; host = 3 }))
    × (lookup 0 s'.bridges ≢ some (record { ticket = 4; controller = 3; host = 2 }))
peer_closes_forgets_example = peer_closes_forgets toy 0 dials 2 accepted 9 4 0 4 3 0 (3 ∷ [])

-- Connection 3 dials with a wrong MAC.
abbrev forged : Option (List ℕ)
forged = some (8 ∷ [])

no_ticket : ((run toy waits (create_cell 0)).conns 3).ticket ≡ none
unfolding run step accept create_cell lookup insert delete member add send messages dispatch
    classify begin_registration answer_key challenge_host make_challenge on_proof challenged
    check_proof drop_challenge verify_proof compute_mac transcript constant_time_equal
    cell_data_auth_key derive_data_auth_key register replace_host close_conn begin_controller_bridge
    answer_ticket bridge_controller open_bridge mark_ticket_used evict_oldest complete_host_dial
    dial dial_authentic verify_data_auth_mac data_auth_mac data_auth_preimage splice link go_raw
    refuse cleanup drop_host drop_pending drop_bridge drop_key unlink detach
no_ticket = refl

not_authentic : dial_authentic toy 4 waiting forged (run toy waits (create_cell 0)) ≡ false
unfolding run step accept create_cell lookup insert delete member add send messages dispatch
    classify begin_registration answer_key challenge_host make_challenge on_proof challenged
    check_proof drop_challenge verify_proof compute_mac transcript constant_time_equal
    cell_data_auth_key derive_data_auth_key register replace_host close_conn begin_controller_bridge
    answer_ticket bridge_controller open_bridge mark_ticket_used evict_oldest complete_host_dial
    dial dial_authentic verify_data_auth_mac data_auth_mac data_auth_preimage splice link go_raw
    refuse cleanup drop_host drop_pending drop_bridge drop_key unlink detach
not_authentic = refl

-- So the key that the host is registered with does not verify the MAC.
unverified :
    (t : ℕ) (mac : Option (List ℕ)) (p : PendingBridge) (s : Cell)
    → dial_authentic toy t p mac s ≡ false
    → (host : ℕ) (key bytes : List ℕ) → lookup p.host_id s.hosts ≡ some host
    → (s.conns host).data_key ≡ some key
    → mac ≡ some bytes
    → verify_data_auth_mac toy key s.cell_id t p.nonce bytes ≡ false
unfolding dial_authentic
unverified t mac p s refused host key bytes e q r =
    let verified : dial_authentic toy t p mac s
        ≡ verify_data_auth_mac toy key s.cell_id t p.nonce bytes =
      rw (e, dial_authentic) (rw q (rw r refl)) in
    sym verified ∙ refused

complete_host_dial_refused_example :
    let s = run toy waits (create_cell 0) in
    let s' = complete_host_dial toy 3 4 forged s in
    (s'.pending ≡ s.pending) × (s'.timers ≡ s.timers) × ((s'.conns 3).closed ≡ true)
complete_host_dial_refused_example =
    complete_host_dial_refused toy 3 4 forged waiting (run toy waits (create_cell 0)) no_ticket
      pends (unverified 4 forged waiting (run toy waits (create_cell 0)) not_authentic)

-- The cell when the authorizer's answer to connection 2 comes.
abbrev presented : List Event
presented =
    registers
    ++ Event.connects 2 ∷ Event.receives 2 (data_auth DialRole.controller 4 none ∷ []) false ∷ []

not_used_yet : member 4 (run toy presented (create_cell 0)).used_tickets ≡ false
unfolding run step accept create_cell lookup insert delete member add send messages dispatch
    classify begin_registration answer_key challenge_host make_challenge on_proof challenged
    check_proof drop_challenge verify_proof compute_mac transcript constant_time_equal
    cell_data_auth_key derive_data_auth_key register replace_host close_conn begin_controller_bridge
    answer_ticket bridge_controller open_bridge mark_ticket_used evict_oldest complete_host_dial
    dial dial_authentic verify_data_auth_mac data_auth_mac data_auth_preimage splice link go_raw
    refuse cleanup drop_host drop_pending drop_bridge drop_key unlink detach
not_used_yet = refl

-- Connection 3 presents the ticket again.
abbrev again : List Event
again = Event.connects 3 ∷ Event.receives 3 (data_auth DialRole.controller 4 none ∷ []) false ∷ []

abbrev presented_again : Cell
presented_again = run toy again (open_bridge 2 4 9 1 (3 ∷ []) (run toy presented (create_cell 0)))

holds_none : (presented_again.conns 3).ticket ≡ none
unfolding run step accept create_cell lookup insert delete member add send messages dispatch
    classify begin_registration answer_key challenge_host make_challenge on_proof challenged
    check_proof drop_challenge verify_proof compute_mac transcript constant_time_equal
    cell_data_auth_key derive_data_auth_key register replace_host close_conn begin_controller_bridge
    answer_ticket bridge_controller open_bridge mark_ticket_used evict_oldest complete_host_dial
    dial dial_authentic verify_data_auth_mac data_auth_mac data_auth_preimage splice link go_raw
    refuse cleanup drop_host drop_pending drop_bridge drop_key unlink detach
holds_none = refl

bridge_controller-run_example :
    (bridge_controller 3 4
      (some (record { host_id = 9; expires_at = 100 }))
      60
      (2 ∷ [])
      presented_again).pending
    ≡ presented_again.pending
bridge_controller-run_example =
    bridge_controller-run toy 2 4 9 1 (3 ∷ []) (run toy presented (create_cell 0)) not_used_yet
      again (omega arith) 3 (some (record { host_id = 9; expires_at = 100 })) 60 (2 ∷ []) holds_none

not_used : member 4 (1 ∷ 2 ∷ []) ≡ false
unfolding member
not_used = refl

abbrev used_two : List ℕ
used_two = 1 ∷ 2 ∷ []

mark_ticket_used_new_example :
    mark_ticket_used 4 used_two ≡ drop (length (used_two ++ 4 ∷ []) - 1024) (used_two ++ 4 ∷ [])
mark_ticket_used_new_example = mark_ticket_used_new 4 used_two not_used

-- Host 9 is challenged, and has not proved itself yet.
abbrev asks : List Event
asks =
    Event.connects 1
    ∷ Event.receives 1 (host_hello 9 ∷ []) false
    ∷ Event.answers_key 1 (some (8 ∷ [])) (6 ∷ []) (5 ∷ [])
    ∷ []

unregistered : lookup 9 (run toy asks (create_cell 0)).hosts ≢ some 1
unfolding run step accept create_cell lookup insert delete member add send messages dispatch
    classify begin_registration answer_key challenge_host make_challenge on_proof challenged
    check_proof drop_challenge verify_proof compute_mac transcript constant_time_equal
    cell_data_auth_key derive_data_auth_key register replace_host close_conn begin_controller_bridge
    answer_ticket bridge_controller open_bridge mark_ticket_used evict_oldest complete_host_dial
    dial dial_authentic verify_data_auth_mac data_auth_mac data_auth_preimage splice link go_raw
    refuse cleanup drop_host drop_pending drop_bridge drop_key unlink detach
unregistered e = cc

proves :
    lookup 9 (on_proof toy 1 (host_proof (7 ∷ [])) (run toy asks (create_cell 0))).hosts ≡ some 1
unfolding run step accept create_cell lookup insert delete member add send messages dispatch
    classify begin_registration answer_key challenge_host make_challenge on_proof challenged
    check_proof drop_challenge verify_proof compute_mac transcript constant_time_equal
    cell_data_auth_key derive_data_auth_key register replace_host close_conn begin_controller_bridge
    answer_ticket bridge_controller open_bridge mark_ticket_used evict_oldest complete_host_dial
    dial dial_authentic verify_data_auth_mac data_auth_mac data_auth_preimage splice link go_raw
    refuse cleanup drop_host drop_pending drop_bridge drop_key unlink detach
proves = refl

on_proof_registers_example :
    let s = run toy asks (create_cell 0) in
    (mac : List ℕ) × (ch : HostChallengeSecret) × (key : List ℕ) × (host_proof (7 ∷ [])
      ≡ host_proof mac)
    × ((s.conns 1).challenge ≡ some ch)
    × ((s.conns 1).host_id ≡ some 9)
    × ((s.conns 1).host_static_pub ≡ some key)
    × (verify_proof toy ch 9 key mac ≡ true)
on_proof_registers_example =
    on_proof_registers toy 9 1 (host_proof (7 ∷ [])) (run toy asks (create_cell 0)) unregistered
      proves
