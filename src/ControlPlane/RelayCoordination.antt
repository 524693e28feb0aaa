-- ===== src/ControlPlane/RelayCoordination.antt =====
-- apps/control-plane/src/services/relay-coordination.ts: tickets are issued into the store, and consumed
-- out of it once. A ticket, an id and a URL is a number that stands for its text.
pub mod OneTime
use pherry.Base.{
  ℕ, zero, suc, ◌+◌, Bool, true, false, List, [], ◌∷◌, Option, none, some, leb, ◌==◌, if◌then◌else◌,
}
use pherry.Channel.Keys.{Base64, decode_key}
use pherry.ControlPlane.Redis.{Store, set, getdel}

-- `TicketPrincipalKind`
pub data TicketPrincipalKind : Type 0 where
  device human : TicketPrincipalKind

-- `TicketValue`
pub record TicketValue : Type 0 where
  pub host_id : ℕ
  pub org_id : ℕ
  pub principal_kind : TicketPrincipalKind
  pub principal_id : ℕ
  pub expires_at : ℕ

-- The columns of a host's row that the service reads.
pub record Host : Type 0 where
  pub id : ℕ
  pub static_public_key : List ℕ
  pub revoked_at : Option ℕ

-- The fields of `Config` that the service reads.
pub record Config : Type 0 where
  pub relay_ticket_ttl_ms : ℕ
  pub director_url : Option ℕ

-- The arguments of `issueTicket`.
pub record Issue : Type 0 where
  pub host : Host
  pub org_id : ℕ
  pub principal_kind : TicketPrincipalKind
  pub principal_id : ℕ

-- `IssueTicketResult`
pub record IssueTicketResult : Type 0 where
  pub ticket : ℕ
  pub expires_at : ℕ
  pub cell_url : Option ℕ
  pub host_public_key : List ℕ

-- `ConsumedTicket`
pub record ConsumedTicket : Type 0 where
  pub host_id : ℕ
  pub org_id : ℕ
  pub expires_at : ℕ
  pub host_static_public_key : List ℕ
  pub host_public_key : List ℕ

-- What the service takes from elsewhere: the hash under which a ticket's key stands, JSON with the
-- schema's check (`read` is `none` where either throws), and base64.
pub record Services (V : Type 0) : Type 0 where
  pub ticket_key : ℕ → ℕ
  pub write : TicketValue → V
  pub read : V → Option TicketValue
  pub base64 : Base64

abbrev pub ticket_mint_attempts : ℕ
ticket_mint_attempts = 3

-- `loadActiveHost`, on the rows of the table.
unfoldable pub load_active_host : List Host → ℕ → Option Host
load_active_host [] host_id = none
load_active_host (row ∷ rows) host_id =
    if row.id == host_id
    then elim row.revoked_at [ none ↦ some row | some _ ↦ none ]
    else load_active_host rows host_id

module _ {V : Type 0} (k : Services V) where
  -- The loop of `issueTicket`, on the attempts that are left, with the ticket that each one draws.
  -- `none` where it throws.
  unfoldable pub mint :
      ℕ → (ℕ → ℕ) → Config → ℕ → Issue → Store V → Option IssueTicketResult × Store V
  mint zero drawn config now args s = (none, s)
  mint (suc attempts) drawn config now args s =
      let expires_at = now + config.relay_ticket_ttl_ms in
      let ticket = drawn attempts in
      let stored =
        set now (k.ticket_key ticket)
          (k.write (record {
            host_id = args.host.id;
            org_id = args.org_id;
            principal_kind = args.principal_kind;
            principal_id = args.principal_id;
            expires_at = expires_at;
          }))
          true (some config.relay_ticket_ttl_ms) s in
      let rest = mint attempts drawn config now args stored.1 in
      if stored.0
      then (
        some (record {
          ticket = ticket;
          expires_at = expires_at;
          cell_url = config.director_url;
          host_public_key = args.host.static_public_key;
        }),
        stored.1,
      )
      else rest

  -- `issueTicket`
  unfoldable pub issue_ticket :
      (ℕ → ℕ) → Config → ℕ → Issue → Store V → Option IssueTicketResult × Store V
  issue_ticket = mint ticket_mint_attempts

  -- `consumeTicket` from the parsed record on.
  unfoldable pub route : List Host → ℕ → TicketValue → Option ConsumedTicket
  route db now r = if leb r.expires_at now then none else elim (load_active_host db r.host_id) [
    | none ↦ none
    | some host ↦ elim (decode_key k.base64 host.static_public_key) [
      | none ↦ none
      | some bytes ↦ some (record {
        host_id = host.id;
        org_id = r.org_id;
        expires_at = r.expires_at;
        host_static_public_key = bytes;
        host_public_key = host.static_public_key;
      })
    ]
  ]

  -- `consumeTicket` on what `getdel` answers.
  unfoldable pub resolve_value : List Host → ℕ → Option V → Option ConsumedTicket
  resolve_value db now none = none
  resolve_value db now (some raw) = elim (k.read raw) [ none ↦ none | some r ↦ route db now r ]

  -- `consumeTicket`
  unfoldable pub consume_ticket : List Host → ℕ → ℕ → Store V → Option ConsumedTicket × Store V
  consume_ticket db now ticket s =
      let taken = getdel now (k.ticket_key ticket) s in (resolve_value db now taken.0, taken.1)

  -- `hostStaticPublicKey` of `makeControlPlaneAuthorizer`, of which `resolveTicket` is `consume_ticket`.
  unfoldable pub host_static_public_key : List Host → ℕ → Option (List ℕ)
  host_static_public_key db host_id = elim (load_active_host db host_id) [
    | none ↦ none
    | some host ↦ decode_key k.base64 host.static_public_key
  ]
