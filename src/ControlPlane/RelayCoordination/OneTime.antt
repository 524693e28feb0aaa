-- ===== src/ControlPlane/RelayCoordination/OneTime.antt =====
-- apps/control-plane/src/services/relay-coordination.ts: an issued ticket routes, and at most once.
use pherry.Base.{
  ℕ, zero, suc, ◌+◌, ◌≤◌, ◌<◌, ◌≡◌, inl, inr, refl, sym, ap, ap₂, ◌∙◌, true, false, List, [], ◌∷◌,
  Option, none, some, leb, if◌then◌else◌, arith, Option-cases, if_elim, some_inj, map, ==_self,
}
use pherry.Channel.Keys.{decode_key}
use pherry.ControlPlane.Redis.{Store, set, getdel, deadline}
use pherry.ControlPlane.Redis.Timed.{seen, shown, set_stores, set_refused, getdel-seen, seen_gone}
use pherry.ControlPlane.RelayCoordination.{
  Services, Config, Issue, IssueTicketResult, ConsumedTicket, TicketValue, Host, mint, issue_ticket,
  ticket_mint_attempts, route, resolve_value, consume_ticket, load_active_host,
}

module _ {V : Type 0} (k : Services V) where
  -- The record that an issue stores.
  abbrev pub issued_value : Config → ℕ → Issue → TicketValue
  issued_value config now args = record {
    host_id = args.host.id;
    org_id = args.org_id;
    principal_kind = args.principal_kind;
    principal_id = args.principal_id;
    expires_at = now + config.relay_ticket_ttl_ms;
  }

  stored_seen :
      (now key : ℕ) (value : V) (ttl : ℕ) (s : Store V) (t : ℕ)
      → now ≤ t
      → t < now + ttl
      → (set now key value true (some ttl) s).0 ≡ true
      → seen t key (set now key value true (some ttl) s).1 ≡ some value
  unfolding shown deadline
  stored_seen now key value ttl s t h before e = elim (Option-cases (seen now key s)) [
    | inl q ↦ (set_stores now key value true (some ttl) s t key h (inr q)).1 ∙ ground arith
    | inr (v, q) ↦ cc (set_refused now key value v (some ttl) s q)
  ]

  mint-seen :
      (attempts : ℕ) (drawn : ℕ → ℕ) (config : Config) (now : ℕ) (args : Issue) (s : Store V)
      (r : IssueTicketResult) (t : ℕ)
      → now ≤ t
      → t < now + config.relay_ticket_ttl_ms
      → (mint k attempts drawn config now args s).0 ≡ some r
      → seen t (k.ticket_key r.ticket) (mint k attempts drawn config now args s).1
        ≡ some (k.write (issued_value config now args))
  unfolding mint
  mint-seen zero drawn config now args s r t h before e = cc
  mint-seen (suc attempts) drawn config now args s r t h before e =
      let key = k.ticket_key (drawn attempts) in
      let value = k.write (issued_value config now args) in
      let stored = set now key value true (some config.relay_ticket_ttl_ms) s in
      if_elim (λ m. m.0 ≡ some r → seen t (k.ticket_key r.ticket) m.1 ≡ some value) stored.0
        (
          some (record {
            ticket = drawn attempts;
            expires_at = now + config.relay_ticket_ttl_ms;
            cell_url = config.director_url;
            host_public_key = args.host.static_public_key;
          }),
          stored.1,
        )
        (mint k attempts drawn config now args stored.1)
        (λ q f.
          ap (λ x. seen t (k.ticket_key x.ticket) stored.1) (sym (some_inj f))
          ∙ stored_seen now key value config.relay_ticket_ttl_ms s t h before q)
        (λ q f. mint-seen attempts drawn config now args stored.1 r t h before f) e

  resolve_value_read :
      (db : List Host) (t : ℕ) (raw : V) (v : TicketValue)
      → k.read raw ≡ some v
      → resolve_value k db t (some raw) ≡ route k db t v
  unfolding resolve_value
  resolve_value_read db t raw v e = rw (e, resolve_value) refl

  route_active :
      (db : List Host) (t : ℕ) (v : TicketValue) (host : Host) (bytes : List ℕ)
      → leb v.expires_at t ≡ false
      → load_active_host db v.host_id ≡ some host
      → decode_key k.base64 host.static_public_key ≡ some bytes
      → route k db t v
        ≡ some (record {
          host_id = host.id;
          org_id = v.org_id;
          expires_at = v.expires_at;
          host_static_public_key = bytes;
          host_public_key = host.static_public_key;
        })
  unfolding route
  route_active db t v host bytes on_time active decoded = rw (on_time, active, decoded) refl

  -- Where JSON reads back what it wrote: a ticket that was issued, consumed before it expires and while its
  -- host is active with a key that decodes, routes to the host.
  pub consume-issue :
      ((v : TicketValue) → k.read (k.write v) ≡ some v)
      → (drawn : ℕ → ℕ) (config : Config) (now : ℕ) (args : Issue) (s : Store V)
        (r : IssueTicketResult)
      → (issue_ticket k drawn config now args s).0 ≡ some r
      → (db : List Host) (host : Host) (bytes : List ℕ) (t : ℕ) → now ≤ t
      → t < now + config.relay_ticket_ttl_ms
      → load_active_host db args.host.id ≡ some host
      → decode_key k.base64 host.static_public_key ≡ some bytes
      → (consume_ticket k db t r.ticket (issue_ticket k drawn config now args s).1).0
        ≡ some (record {
          host_id = host.id;
          org_id = args.org_id;
          expires_at = now + config.relay_ticket_ttl_ms;
          host_static_public_key = bytes;
          host_public_key = host.static_public_key;
        })
  unfolding consume_ticket issue_ticket resolve_value route
  consume-issue json drawn config now args s r issued db host bytes t h before active decoded =
      let after = (mint k ticket_mint_attempts drawn config now args s).1 in
      let value = issued_value config now args in
      let found : (getdel t (k.ticket_key r.ticket) after).0 ≡ some (k.write value) =
        (getdel-seen t (k.ticket_key r.ticket) after t 0 (omega arith)).0
        ∙ mint-seen ticket_mint_attempts drawn config now args s r t h before issued in
      let on_time : leb value.expires_at t ≡ false = ground arith in
      ap (resolve_value k db t) found
      ∙ resolve_value_read db t (k.write value) value (json value)
      ∙ route_active db t value host bytes on_time active decoded

  -- What the attempts to consume a ticket answer, each a delay after the one before it.
  abbrev pub retry : List Host → ℕ → ℕ → List ℕ → Store V → List (Option ConsumedTicket)
  retry db ticket now [] s = []
  retry db ticket now (delay ∷ delays) s =
      let consumed = consume_ticket k db (now + delay) ticket s in
      consumed.0 ∷ retry db ticket (now + delay) delays consumed.1

  -- What a consume leaves no later consume finds.
  consumed_gone :
      (db : List Host) (ticket t : ℕ) (s : Store V)
      → seen t (k.ticket_key ticket) (consume_ticket k db t ticket s).1 ≡ none
  unfolding consume_ticket
  consumed_gone db ticket t s =
      let key = k.ticket_key ticket in
      (getdel-seen t key s t key (omega arith)).1
      ∙ ap (λ b. if b then none else seen t key s) (==_self key)

  retry_gone :
      (db : List Host) (ticket now : ℕ) (delays : List ℕ) (s : Store V)
      → seen now (k.ticket_key ticket) s ≡ none
      → retry db ticket now delays s ≡ map (λ d. none) delays
  unfolding consume_ticket resolve_value
  retry_gone db ticket now [] s gone = refl
  retry_gone db ticket now (delay ∷ delays) s gone =
      let t = now + delay in
      let key = k.ticket_key ticket in
      ap₂ (λ x xs. x ∷ xs)
        (ap (resolve_value k db t)
          ((getdel-seen t key s t key (omega arith)).0 ∙ seen_gone now t key s (omega arith) gone))
        (retry_gone db ticket t delays (consume_ticket k db t ticket s).1
          (consumed_gone db ticket t s))

  -- Of the attempts to consume one ticket, with any delays between them, only the first can route.
  pub retry-consume_ticket :
      (db : List Host) (ticket now delay : ℕ) (delays : List ℕ) (s : Store V)
      → retry db ticket now (delay ∷ delays) s
        ≡ (consume_ticket k db (now + delay) ticket s).0 ∷ map (λ d. none) delays
  retry-consume_ticket db ticket now delay delays s =
      let t = now + delay in
      ap (λ rest. (consume_ticket k db t ticket s).0 ∷ rest)
        (retry_gone db ticket t delays (consume_ticket k db t ticket s).1
          (consumed_gone db ticket t s))
