-- ===== src/Relay/Cell/Tickets/Once.antt =====
-- A ticket that opened a bridge in packages/relay-core/src/cell.ts opens no other through any fewer than
-- 1024 events.
use pherry.Base.{
  ℕ, ◌<◌, ◌≤◌, ◌≡◌, refl, ap, ◌∙◌, inl, inr, Bool, false, List, [], ◌∷◌, Option, none, some, ◌||◌,
  arith, if_elim, length, Option-cases,
}
use pherry.Base.Maps.{lookup, member}
use pherry.Relay.HostProof.{Primitives, HostChallengeSecret, verify_proof, cell_data_auth_key}
use pherry.Relay.Cell.State.{
  Cell, PendingBridge, set_conn, OuterMessage, close, host_challenge, host_proof, host_hello,
  host_registered, conn_open, data_auth, data_ready, drain, DialRole, Awaiting, nothing, host_key,
  ticket_record,
}
use pherry.Relay.Cell.Registration.{
  begin_registration, drop_challenge, challenged, challenge_host, check_proof, on_proof,
}
use pherry.Relay.Cell.Bridging.{
  TicketRecord, bridge_controller, open_bridge, dial, dial_authentic, complete_host_dial,
}
use pherry.Relay.Cell.Events.{
  Event, classify, on_control, dispatch, messages, answer_key, answer_ticket, step, run,
}
use pherry.Relay.Cell.Invariant.Spent.{role-cases}
use pherry.Relay.Cell.Tickets.Reuse.{mark_all, send-used, bridge_controller-open_bridge}
use pherry.Relay.Cell.Tickets.Marked.{
  IsSame, Marked, bridge_controller-Marked, detach-used, refuse-used, begin_controller_bridge-used,
  register-used, splice-used, on_bridge_timeout-used, accept-used, drain_cell-used, close_cell-used,
  forward-used, fail_answer-used,
}

module _ (k : Primitives) where
  dial-used :
      (c t : ℕ) (p : PendingBridge) (mac : Option (List ℕ)) (s : Cell)
      → IsSame s (dial k c t p mac s)
  unfolding dial
  dial-used c t p mac s =
      if_elim (IsSame s) (dial_authentic k t p mac s) _ _ (λ _. splice-used p.controller c t _)
        (λ _. refuse-used c _ s)

  complete_host_dial-used :
      (c t : ℕ) (mac : Option (List ℕ)) (s : Cell) → IsSame s (complete_host_dial k c t mac s)
  unfolding complete_host_dial
  complete_host_dial-used c t mac s = elim (Option-cases (lookup t s.pending)) [
    | inl e ↦ rw (e, complete_host_dial) (refuse-used c _ s)
    | inr (p, e) ↦ rw (e, complete_host_dial) (dial-used c t p mac s)
  ]

  challenge_host-used :
      (c h : ℕ) (key : Option (List ℕ)) (secret nonce : List ℕ) (s : Cell)
      → IsSame s (challenge_host k c h key secret nonce s)
  unfolding challenge_host
  challenge_host-used c h none secret nonce s =
      let s' = set_conn c (record (s.conns c) { awaiting = nothing }) s in
      if_elim (IsSame s) (s'.closed || (s'.conns c).closed) _ _ (λ _. refl)
        (λ _. refuse-used c _ s')
  challenge_host-used c h (some key) secret nonce s =
      let s' = set_conn c (record (s.conns c) { awaiting = nothing }) s in
      if_elim (IsSame s) (s'.closed || (s'.conns c).closed) _ _ (λ _. refl) (λ _. send-used c _ _)

  check_proof-used :
      (c : ℕ) (held : HostChallengeSecret × ℕ × List ℕ) (mac : List ℕ) (s : Cell)
      → IsSame s (check_proof k c held mac s)
  unfolding check_proof drop_challenge
  check_proof-used c (ch, h, key) mac s =
      if_elim (IsSame s) (verify_proof k ch h key mac) _ _
        (λ _. elim (Option-cases (cell_data_auth_key k ch key)) [
          | inl e ↦ rw e (refuse-used c _ _)
          | inr (data_key, e) ↦ rw e (register-used c h data_key _)
        ])
        (λ _. refuse-used c _ _)

  on_proof-used : (c : ℕ) (m : OuterMessage) (s : Cell) → IsSame s (on_proof k c m s)
  unfolding on_proof drop_challenge
  on_proof-used c (host_proof mac) s = elim (Option-cases (challenged (s.conns c))) [
    | inl e ↦ rw (e, on_proof) (refuse-used c _ s)
    | inr (held, e) ↦ rw (e, on_proof) (check_proof-used c held mac s)
  ]
  on_proof-used c (host_hello _) s = refuse-used c _ _
  on_proof-used c (host_challenge _ _ _) s = refuse-used c _ _
  on_proof-used c (host_registered _) s = refuse-used c _ _
  on_proof-used c (conn_open _ _) s = refuse-used c _ _
  on_proof-used c (data_auth _ _ _) s = refuse-used c _ _
  on_proof-used c data_ready s = refuse-used c _ _
  on_proof-used c drain s = refuse-used c _ _
  on_proof-used c (close _) s = refuse-used c _ _

  classify-used : (c : ℕ) (m : OuterMessage) (s : Cell) → IsSame s (classify k c m s)
  unfolding classify begin_registration
  classify-used c (host_hello h) s = refl
  classify-used c (data_auth DialRole.controller t mac) s = begin_controller_bridge-used c t _
  classify-used c (data_auth DialRole.host t mac) s = complete_host_dial-used c t mac _
  classify-used c (host_challenge _ _ _) s = refuse-used c _ _
  classify-used c (host_proof _) s = refuse-used c _ _
  classify-used c (host_registered _) s = refuse-used c _ _
  classify-used c (conn_open _ _) s = refuse-used c _ _
  classify-used c data_ready s = refuse-used c _ _
  classify-used c drain s = refuse-used c _ _
  classify-used c (close _) s = refuse-used c _ _

  on_control-used : (c : ℕ) (m : OuterMessage) (s : Cell) → IsSame s (on_control k c m s)
  unfolding on_control
  on_control-used c (close code) s = detach-used c s
  on_control-used c (host_hello _) s = refuse-used c _ _
  on_control-used c (data_auth _ _ _) s = refuse-used c _ _
  on_control-used c (host_challenge _ _ _) s = refuse-used c _ _
  on_control-used c (host_proof _) s = refuse-used c _ _
  on_control-used c (host_registered _) s = refuse-used c _ _
  on_control-used c (conn_open _ _) s = refuse-used c _ _
  on_control-used c data_ready s = refuse-used c _ _
  on_control-used c drain s = refuse-used c _ _

  messages-used :
      (c : ℕ) (ms : List OuterMessage) (malformed : Bool) (s : Cell)
      → IsSame s (messages k c ms malformed s)
  unfolding messages
  messages-used c [] malformed s =
      if_elim (IsSame s) (s.conns c).raw _ _ (λ _. refl)
        (λ _. if_elim (IsSame s) malformed _ _ (λ _. refuse-used c _ s) (λ _. refl))
  messages-used c (m ∷ ms) malformed s =
      if_elim (IsSame s) (s.conns c).raw _ _ (λ _. refl)
        (λ _.
          messages-used c ms malformed (dispatch k c m s)
          ∙ role-cases k (IsSame s) c m s (λ _. classify-used c m s) (λ _. on_proof-used c m s)
              (λ _. on_control-used c m s) (λ _. refuse-used c _ s))

  answer_key-used :
      (c : ℕ) (key : Option (List ℕ)) (secret nonce : List ℕ) (a : Awaiting) (s : Cell)
      → IsSame s (answer_key k c key secret nonce a s)
  unfolding answer_key
  answer_key-used c key secret nonce nothing s = refl
  answer_key-used c key secret nonce (host_key h) s = challenge_host-used c h key secret nonce s
  answer_key-used c key secret nonce (ticket_record t) s = refl

  answer_ticket-Marked :
      (c : ℕ) (answer : Option TicketRecord) (now : ℕ) (nonce : List ℕ) (a : Awaiting) (s : Cell)
      → Marked s (answer_ticket k c answer now nonce a s)
  unfolding answer_ticket
  answer_ticket-Marked c answer now nonce nothing s = inl refl
  answer_ticket-Marked c answer now nonce (host_key h) s = inl refl
  answer_ticket-Marked c answer now nonce (ticket_record t) s =
      bridge_controller-Marked c t answer now nonce s

  step-Marked : (e : Event) (s : Cell) → Marked s (step k e s)
  unfolding step
  step-Marked (Event.connects c) s =
      if_elim (Marked s) ((s.conns c).accepted || (s.conns c).closed) _ _ (λ _. inl refl)
        (λ _. inl (accept-used c s))
  step-Marked (Event.receives c ms malformed) s =
      if_elim (Marked s) (s.conns c).accepted _ _
        (λ _.
          if_elim (Marked s) ((s.conns c).closed || (s.conns c).raw) _ _ (λ _. inl refl)
            (λ _. inl (messages-used c ms malformed s)))
        (λ _. inl refl)
  step-Marked (Event.receives_raw c bytes) s =
      if_elim (Marked s) (s.conns c).closed _ _ (λ _. inl refl)
        (λ _.
          if_elim (Marked s) (s.conns c).raw _ _ (λ _. inl (forward-used c bytes s))
            (λ _. inl refl))
  step-Marked (Event.peer_closes c) s =
      if_elim (Marked s) (s.conns c).accepted _ _ (λ _. inl (detach-used c s)) (λ _. inl refl)
  step-Marked (Event.answers_key c key secret nonce) s =
      inl (answer_key-used c key secret nonce (s.conns c).awaiting s)
  step-Marked (Event.answers_ticket c answer now nonce) s =
      answer_ticket-Marked c answer now nonce (s.conns c).awaiting s
  step-Marked (Event.fails c) s = inl (fail_answer-used c (s.conns c).awaiting s)
  step-Marked (Event.fires timer) s = elim (Option-cases (lookup timer s.timers)) [
    | inl e ↦ rw (e, step) (inl refl)
    | inr (t, e) ↦ rw (e, step) (inl (on_bridge_timeout-used t _))
  ]
  step-Marked Event.drains s = inl (drain_cell-used s)
  step-Marked Event.closes s = inl (close_cell-used s)

  -- The tickets that are marked in a run, one for an event at most.
  run-mark_all :
      (es : List Event) (s : Cell)
      → (tickets : List ℕ) × (length tickets ≤ length es)
        × ((run k es s).used_tickets ≡ mark_all tickets s.used_tickets)
  unfolding run
  run-mark_all [] s = ([], omega arith, refl)
  run-mark_all (e ∷ es) s =
      let (tickets, few, marked) = run-mark_all es (step k e s) in
      elim (step-Marked e s) [
        | inl same ↦ (tickets, omega arith, marked ∙ ap (mark_all tickets) same)
        | inr (x, more) ↦ (x ∷ tickets, omega arith, marked ∙ ap (mark_all tickets) more)
      ]

  -- Once a bridge is opened for a ticket that was not used, the ticket opens no other through any fewer
  -- than 1024 events: when the authorizer answers for it again, whatever it answers, the pending bridges
  -- stay as they are, if the connection holds no ticket yet.
  pub bridge_controller-run :
      (c t host host_conn : ℕ) (nonce : List ℕ) (s : Cell)
      → member t s.used_tickets ≡ false
      → (es : List Event) → length es < 1024
      → (again : ℕ) (answer : Option TicketRecord) (now : ℕ) (drawn : List ℕ)
      → let later = run k es (open_bridge c t host host_conn nonce s) in
        (later.conns again).ticket ≡ none
        → (bridge_controller again t answer now drawn later).pending ≡ later.pending
  bridge_controller-run c t host host_conn nonce s new es h again answer now drawn free =
      let opened = open_bridge c t host host_conn nonce s in
      let (tickets, few, marked) = run-mark_all es opened in
      bridge_controller-open_bridge c t host host_conn nonce s new tickets (omega arith)
        (run k es opened) marked again answer now drawn free
