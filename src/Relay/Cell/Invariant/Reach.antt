-- ===== src/Relay/Cell/Invariant/Reach.antt =====
-- Every event of packages/relay-core/src/cell.ts keeps the invariant, so every reachable cell has it.
use pherry.Base.{
  ℕ, ◌≡◌, refl, sym, ap, subst, ◌∙◌, inl, inr, Bool, true, List, [], ◌∷◌, Option, ◌||◌, arith,
  Option-cases, if_elim,
}
use pherry.Base.Maps.{lookup, update_self, delete}
use pherry.Relay.HostProof.{Primitives}
use pherry.Relay.Cell.State.{
  Cell, unclassified, control_pending, controller_data, host_data, OuterMessage, host_hello,
  host_challenge, host_proof, host_registered, conn_open, data_auth, data_ready, drain, close,
  refuse, DialRole, RelayCloseCode, close_conn, create_cell, PendingBridge, Bridge, Awaiting,
  nothing, host_key, ticket_record,
}
use pherry.Relay.Cell.Bridging.{TicketRecord}
use pherry.Relay.Cell.Events.{
  classify, dispatch, on_control, messages, forward, step, run, Event, tell_hosts, drain_cell,
  close_pending, close_bridges, close_hosts, close_cell, answer_key, answer_ticket,
}
use pherry.Relay.Cell.Invariant.{Inv, IsFree}
use pherry.Relay.Cell.Invariant.Cleanup.{send-Inv, output-Inv}
use pherry.Relay.Cell.Invariant.Detach.{refuse-Inv, detach-Inv, close_conn-Inv}
use pherry.Relay.Cell.Invariant.Idle.{
  set_role-Inv, begin_registration-Inv, begin_controller_bridge-Inv, accept-Inv, fail_answer-Inv,
}
use pherry.Relay.Cell.Invariant.Proof.{IsSpent, on_proof-Inv, challenge_host-Inv}
use pherry.Relay.Cell.Invariant.Pending.{bridge_controller-Inv, on_bridge_timeout-Inv}
use pherry.Relay.Cell.Invariant.Dial.{complete_host_dial-Inv}
use pherry.Relay.Cell.Invariant.Spent.{dispatch_after, role-cases}

create_cell-Inv : (cell_id : ℕ) → Inv (create_cell cell_id)
unfolding create_cell lookup
create_cell-Inv cell_id = record {
  sound = λ c. record {
    fresh_ticket = λ _. refl;
    wait_ticket = λ t q. cc;
    wait_key = λ h q. cc;
    challenged = λ _. refl;
    bound = λ q. absurd (q refl);
    unaccepted = λ _. refl;
  };
  hosts = λ h c e. cc;
  pending = λ t p e. cc;
  timers = λ t p e. cc;
  bridges = λ i b e. cc;
  linked = λ c i e. cc;
  wired = λ c d e. cc;
}

tell_hosts-Inv : (hosts : List (ℕ × ℕ)) (s : Cell) → Inv s → Inv (tell_hosts hosts s)
unfolding tell_hosts
tell_hosts-Inv [] s v = v
tell_hosts-Inv ((h, c) ∷ hosts) s v = tell_hosts-Inv hosts _ (send-Inv c _ v)

flags-Inv :
    (s : Cell) (draining closed : Bool)
    → Inv s
    → Inv (record s { draining = draining; closed = closed })
flags-Inv s draining closed v = record {
  sound = v.sound;
  hosts = v.hosts;
  pending = v.pending;
  timers = v.timers;
  bridges = v.bridges;
  linked = v.linked;
  wired = v.wired;
}

drain_cell-Inv : {s : Cell} → Inv s → Inv (drain_cell s)
unfolding drain_cell
drain_cell-Inv {s} v =
    if_elim Inv (s.closed || s.draining) _ _ (λ _. v)
      (λ _. tell_hosts-Inv s.hosts _ (flags-Inv s true s.closed v))

-- A cell without entries, whatever its timers.
emptied : Cell → Cell
emptied s = record s { pending = []; bridges = []; hosts = [] }

emptied-Inv :
    (s : Cell) (timers : List (ℕ × ℕ)) → Inv s → Inv (emptied (record s { timers = timers }))
unfolding emptied lookup
emptied-Inv s timers v = record {
  sound = v.sound;
  hosts = λ h c e. cc;
  pending = λ t p e. cc;
  timers = λ t p e. cc;
  bridges = λ i b e. cc;
  linked = λ c i e. ((v.linked c i e).0, λ b q. cc);
  wired = v.wired;
}

emptied-IsFree : (c : ℕ) (s : Cell) → IsFree c (emptied s)
unfolding emptied lookup
emptied-IsFree c s = record {
  not_host = λ h e. cc;
  not_pending = λ t p e. cc;
  not_bridged = λ i b e. cc;
}

close_emptied : (c : ℕ) (s : Cell) → Inv (emptied s) → Inv (emptied (close_conn c s))
unfolding emptied close_conn
close_emptied c s v = close_conn-Inv c (emptied-IsFree c s) v

close_pending-Inv :
    (ps : List (ℕ × PendingBridge)) (s : Cell)
    → Inv (emptied s)
    → Inv (emptied (close_pending ps s))
unfolding close_pending emptied
close_pending-Inv [] s v = v
close_pending-Inv ((t, p) ∷ ps) s v =
    close_pending-Inv ps _
      (close_emptied p.controller _ (emptied-Inv (emptied s) (delete p.timer s.timers) v))

close_bridges-Inv :
    (bs : List (ℕ × Bridge)) (s : Cell) → Inv (emptied s) → Inv (emptied (close_bridges bs s))
unfolding close_bridges
close_bridges-Inv [] s v = v
close_bridges-Inv ((i, b) ∷ bs) s v =
    close_bridges-Inv bs _ (close_emptied b.host _ (close_emptied b.controller s v))

close_hosts-Inv :
    (hs : List (ℕ × ℕ)) (s : Cell) → Inv (emptied s) → Inv (emptied (close_hosts hs s))
unfolding close_hosts
close_hosts-Inv [] s v = v
close_hosts-Inv ((h, c) ∷ hs) s v = close_hosts-Inv hs _ (close_emptied c s v)

close_bridges-pending :
    (bs : List (ℕ × Bridge)) (s : Cell) → (close_bridges bs s).pending ≡ s.pending
unfolding close_bridges close_conn
close_bridges-pending [] s = refl
close_bridges-pending ((i, b) ∷ bs) s = close_bridges-pending bs _

close_hosts-SameMaps :
    (hs : List (ℕ × ℕ)) (s : Cell)
    → ((close_hosts hs s).pending ≡ s.pending) × ((close_hosts hs s).bridges ≡ s.bridges)
unfolding close_hosts close_conn
close_hosts-SameMaps [] s = (refl, refl)
close_hosts-SameMaps ((h, c) ∷ hs) s = close_hosts-SameMaps hs _

cleared :
    (s : Cell) → s.pending ≡ [] → s.bridges ≡ [] → Inv (emptied s) → Inv (record s { hosts = [] })
unfolding emptied
cleared s e q v =
    subst (λ p. Inv (record s { pending = p; hosts = [] })) (sym e)
      (subst (λ b. Inv (record s { pending = []; bridges = b; hosts = [] })) (sym q) v)

-- `close` empties its maps one after the other; cleared, each stage is the next one's start.
close_cell-Inv : {s : Cell} → Inv s → Inv (close_cell s)
unfolding close_cell emptied
close_cell-Inv {s} v =
    let first = close_pending s.pending (record s { closed = true }) in
    let second = close_bridges s.bridges (record first { pending = [] }) in
    let third = close_hosts s.hosts (record second { bridges = [] }) in
    let x : Inv (emptied (record s { closed = true })) =
      emptied-Inv (record s { closed = true }) s.timers (flags-Inv s s.draining true v) in
    let x1 : Inv (emptied first) = close_pending-Inv s.pending (record s { closed = true }) x in
    let x2 : Inv (emptied second) =
      close_bridges-Inv s.bridges (record first { pending = [] }) x1 in
    let x3 : Inv (emptied third) = close_hosts-Inv s.hosts (record second { bridges = [] }) x2 in
    let (p, b) = close_hosts-SameMaps s.hosts (record second { bridges = [] }) in
    if_elim Inv s.closed _ _ (λ _. v)
      (λ _.
        cleared third (p ∙ close_bridges-pending s.bridges (record first { pending = [] })) b x3)

module _ (k : Primitives) where
  refused : {s : Cell} (c : ℕ) (code : RelayCloseCode) → Inv s → Inv (refuse c code s)
  refused c code v = (refuse-Inv c code v).0

  classify-Inv :
      {s : Cell} (c : ℕ) (m : OuterMessage)
      → Inv s
      → (s.conns c).role ≡ unclassified
      → (s.conns c).accepted ≡ true
      → Inv (classify k c m s)
  unfolding classify
  classify-Inv {s} c (host_hello h) v e a =
      begin_registration-Inv c h (set_role-Inv c control_pending v e a (λ q. cc))
        (ap (λ x. x.role) (update_self s.conns c _))
        (ap (λ x. x.challenge) (update_self s.conns c _) ∙ (v.sound c).challenged (λ q. cc))
  classify-Inv {s} c (data_auth DialRole.controller t mac) v e a =
      begin_controller_bridge-Inv c t (set_role-Inv c controller_data v e a (λ q. cc))
        (ap (λ x. x.role) (update_self s.conns c _))
        (ap (λ x. x.ticket) (update_self s.conns c _) ∙ (v.sound c).fresh_ticket e)
  classify-Inv {s} c (data_auth DialRole.host t mac) v e a =
      complete_host_dial-Inv k c t mac (set_role-Inv c host_data v e a (λ q. cc))
        (ap (λ x. x.role) (update_self s.conns c _))
        (ap (λ x. x.ticket) (update_self s.conns c _) ∙ (v.sound c).fresh_ticket e)
  classify-Inv c (host_challenge _ _ _) v e a = refused c _ v
  classify-Inv c (host_proof _) v e a = refused c _ v
  classify-Inv c (host_registered _) v e a = refused c _ v
  classify-Inv c (conn_open _ _) v e a = refused c _ v
  classify-Inv c data_ready v e a = refused c _ v
  classify-Inv c drain v e a = refused c _ v
  classify-Inv c (close _) v e a = refused c _ v

  on_control-Inv : {s : Cell} (c : ℕ) (m : OuterMessage) → Inv s → Inv (on_control k c m s)
  unfolding on_control
  on_control-Inv c (host_hello _) v = refused c _ v
  on_control-Inv c (host_challenge _ _ _) v = refused c _ v
  on_control-Inv c (host_proof _) v = refused c _ v
  on_control-Inv c (host_registered _) v = refused c _ v
  on_control-Inv c (conn_open _ _) v = refused c _ v
  on_control-Inv c (data_auth _ _ _) v = refused c _ v
  on_control-Inv c data_ready v = refused c _ v
  on_control-Inv c drain v = refused c _ v
  on_control-Inv c (close _) v = (detach-Inv c v).0

  dispatch-Inv :
      {s : Cell} (c : ℕ) (m : OuterMessage)
      → Inv s
      → (s.conns c).accepted ≡ true
      → IsSpent (s.conns c)
      → Inv (dispatch k c m s)
  dispatch-Inv {s} c m v a spent =
      role-cases k Inv c m s (λ e. classify-Inv c m v e a) (λ e. on_proof-Inv k c m v e spent)
        (λ _. on_control-Inv c m v) (λ _. refused c _ v)

  messages-Inv :
      (c : ℕ) (ms : List OuterMessage) (malformed : Bool) (s : Cell)
      → Inv s
      → (s.conns c).accepted ≡ true
      → IsSpent (s.conns c)
      → Inv (messages k c ms malformed s)
  unfolding messages
  messages-Inv c [] malformed s v a spent =
      if_elim Inv (s.conns c).raw _ _ (λ _. v)
        (λ _. if_elim Inv malformed _ _ (λ _. refused c _ v) (λ _. v))
  messages-Inv c (m ∷ ms) malformed s v a spent =
      let (keeps, gone) = dispatch_after k c m s (v.sound c) in
      if_elim Inv (s.conns c).raw _ _ (λ _. v)
        (λ _.
          messages-Inv c ms malformed _ (dispatch-Inv c m v a spent) ((keeps.each c).accepted ∙ a)
            (λ _. gone))

  forward-Inv : {s : Cell} (c : ℕ) (bytes : List ℕ) → Inv s → Inv (forward c bytes s)
  unfolding forward
  forward-Inv {s} c bytes v = elim (Option-cases (s.conns c).raw_peer) [
    | inl e ↦ rw (e, forward) v
    | inr (peer, e) ↦
        rw (e, forward) (if_elim Inv (s.conns peer).closed _ _ (λ _. v) (λ _. output-Inv _ v))
  ]

  answer_key-Inv :
      {s : Cell} (c : ℕ) (key : Option (List ℕ)) (secret nonce : List ℕ) (a : Awaiting)
      → Inv s
      → (s.conns c).awaiting ≡ a
      → Inv (answer_key k c key secret nonce a s)
  unfolding answer_key
  answer_key-Inv c key secret nonce nothing v e = v
  answer_key-Inv c key secret nonce (host_key h) v e =
      challenge_host-Inv k c h key secret nonce v ((v.sound c).wait_key h e).0
  answer_key-Inv c key secret nonce (ticket_record t) v e = v

  answer_ticket-Inv :
      {s : Cell} (c : ℕ) (answer : Option TicketRecord) (now : ℕ) (nonce : List ℕ) (a : Awaiting)
      → Inv s
      → (s.conns c).awaiting ≡ a
      → Inv (answer_ticket k c answer now nonce a s)
  unfolding answer_ticket
  answer_ticket-Inv c answer now nonce nothing v e = v
  answer_ticket-Inv c answer now nonce (host_key h) v e = v
  answer_ticket-Inv c answer now nonce (ticket_record t) v e =
      let (role, ticket) = (v.sound c).wait_ticket t e in
      bridge_controller-Inv c t answer now nonce v role ticket

  pub step-Inv : {s : Cell} (e : Event) → Inv s → Inv (step k e s)
  unfolding step
  step-Inv {s} (Event.connects c) v =
      if_elim Inv ((s.conns c).accepted || (s.conns c).closed) _ _ (λ _. v)
        (λ e. accept-Inv c v (ground arith))
  step-Inv {s} (Event.receives c ms malformed) v =
      if_elim Inv (s.conns c).accepted _ _
        (λ a.
          if_elim Inv ((s.conns c).closed || (s.conns c).raw) _ _ (λ _. v)
            (λ e. messages-Inv c ms malformed s v a (λ q. ground arith)))
        (λ _. v)
  step-Inv {s} (Event.receives_raw c bytes) v =
      if_elim Inv (s.conns c).closed _ _ (λ _. v)
        (λ _. if_elim Inv (s.conns c).raw _ _ (λ _. forward-Inv c bytes v) (λ _. v))
  step-Inv {s} (Event.peer_closes c) v =
      if_elim Inv (s.conns c).accepted _ _ (λ _. (detach-Inv c v).0) (λ _. v)
  step-Inv {s} (Event.answers_key c key secret nonce) v =
      answer_key-Inv c key secret nonce (s.conns c).awaiting v refl
  step-Inv {s} (Event.answers_ticket c answer now nonce) v =
      answer_ticket-Inv c answer now nonce (s.conns c).awaiting v refl
  step-Inv {s} (Event.fails c) v = fail_answer-Inv c (s.conns c).awaiting v refl
  step-Inv {s} (Event.fires timer) v = elim (Option-cases (lookup timer s.timers)) [
    | inl e ↦ rw (e, step) v
    | inr (t, e) ↦ rw (e, step) (on_bridge_timeout-Inv timer t v e)
  ]
  step-Inv Event.drains v = drain_cell-Inv v
  step-Inv Event.closes v = close_cell-Inv v

  run-Inv : (es : List Event) (s : Cell) → Inv s → Inv (run k es s)
  unfolding run
  run-Inv [] s v = v
  run-Inv (e ∷ es) s v = run-Inv es _ (step-Inv e v)

  pub reachable-Inv : (cell_id : ℕ) (es : List Event) → Inv (run k es (create_cell cell_id))
  reachable-Inv cell_id es = run-Inv es _ (create_cell-Inv cell_id)
