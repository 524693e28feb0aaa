-- ===== src/ControlPlane/Examples.antt =====
-- The store, the rate limit and the tickets of apps/control-plane at fixed inputs.
use pherry.Base.{
  ℕ, ◌+◌, ◌*◌, ◌≡◌, ◌≢◌, ◌==◌, refl, true, false, List, [], ◌∷◌, none, some, if◌then◌else◌, arith,
  replicate,
}
use pherry.Base.Maps.{lookup, insert}
use pherry.Channel.Keys.{constant_time_equal, decode_key}
use pherry.ControlPlane.Redis.{Store, Counts, getdel, set, set_unless, live, deadline}
use pherry.ControlPlane.Redis.Timed.{seen, getdel-seen, shown}
use pherry.ControlPlane.RateLimit.Window.{hits, counted, hits_window}
use pherry.ControlPlane.RelayCoordination.{
  Services, Config, Issue, Host, TicketValue, TicketPrincipalKind, IssueTicketResult, issue_ticket,
  mint, consume_ticket, load_active_host,
}
use pherry.ControlPlane.RelayCoordination.OneTime.{consume-issue, retry, retry-consume_ticket}
use pherry.ControlPlane.CliAuth
use pherry.ControlPlane.CliAuth.{
  CliAuthRequest, CliAuthGrant, CliTokenRecord, Exchange, entered, exchange_step, check_request,
  take_grant, redeem, code_right, load_request, live_request, approve_cli_auth, approve_with,
  approved_as, redirect_url, wrong_code, store_grant, normalize_user_code, normal, start_cli_auth,
}
use pherry.ControlPlane.CliAuth.Once.{World, turns, has_won, exchange_step_once}
use pherry.ControlPlane.Redis.{get, read_entry, take_entry, expired, del}
use pherry.Base.Maps.{delete}
use pherry.Base.{length, Option}

abbrev one_ticket : Store ℕ
one_ticket = (7, record { value = 9; expires_at = none }) ∷ []

abbrev plain : Counts ℕ
plain = record { number = λ n. n; text = λ n. n }

getdel-seen_example :
    ((getdel 50 7 one_ticket).0 ≡ seen 50 7 one_ticket)
    × (seen 51 7 (getdel 50 7 one_ticket).1 ≡ (if 7 == 7 then none else seen 51 7 one_ticket))
getdel-seen_example = getdel-seen 50 7 one_ticket 51 7 (omega arith)

nothing_seen : seen {V = ℕ} 50 3 [] ≡ none
unfolding seen shown lookup
nothing_seen = refl

hits_window_example :
    hits plain 3 2 100 ((50, 52) ∷ (60, 61) ∷ (70, 149) ∷ []) []
    ≡ counted 2 0 ((50, 52) ∷ (60, 61) ∷ (70, 149) ∷ [])
hits_window_example =
    hits_window plain (λ n. refl) 3 2 100 50 52 ((60, 61) ∷ (70, 149) ∷ []) [] nothing_seen
      (omega arith) ((omega arith, omega arith), ((omega arith, omega arith), tt))

-- JSON that keeps the value, and base64 that is the text itself.
abbrev services : Services TicketValue
services = record {
  ticket_key = λ ticket. 2 * ticket;
  write = λ v. v;
  read = λ v. some v;
  base64 = record { to_text = λ bytes. bytes; from_text = λ text. text };
}

abbrev host_key : List ℕ
host_key = replicate 32 5

abbrev host : Host
host = record { id = 4; static_public_key = host_key; revoked_at = none }

abbrev ttl : Config
ttl = record { relay_ticket_ttl_ms = 30; director_url = none }

abbrev for_device : Issue
for_device = record {
  host = host;
  org_id = 1;
  principal_kind = TicketPrincipalKind.device;
  principal_id = 6;
}

abbrev issued : IssueTicketResult
issued = record { ticket = 12; expires_at = 130; cell_url = none; host_public_key = host_key }

issued_first : (issue_ticket services (λ n. n + 10) ttl 100 for_device []).0 ≡ some issued
unfolding issue_ticket mint set set_unless live deadline lookup insert
issued_first = refl

host_active : load_active_host (host ∷ []) 4 ≡ some host
unfolding load_active_host
host_active = refl

key_decoded : decode_key services.base64 host_key ≡ some host_key
unfolding decode_key constant_time_equal
key_decoded = refl

consume-issue_example :
    (consume_ticket services
      (host ∷ [])
      120
      12
      (issue_ticket services (λ n. n + 10) ttl 100 for_device []).1).0
    ≡ some (record {
      host_id = 4;
      org_id = 1;
      expires_at = 130;
      host_static_public_key = host_key;
      host_public_key = host_key;
    })
consume-issue_example =
    consume-issue services (λ v. refl) (λ n. n + 10) ttl 100 for_device [] issued issued_first
      (host ∷ []) host host_key 120 (omega arith) (omega arith) host_active key_decoded

retry-consume_ticket_example :
    retry services
      (host ∷ [])
      12
      100
      (20 ∷ 1 ∷ 0 ∷ [])
      (issue_ticket services (λ n. n + 10) ttl 100 for_device []).1
    ≡ (consume_ticket services
        (host ∷ [])
        120
        12
        (issue_ticket services (λ n. n + 10) ttl 100 for_device []).1).0
      ∷ none
      ∷ none
      ∷ []
retry-consume_ticket_example =
    retry-consume_ticket services (host ∷ []) 12 100 20 (1 ∷ 0 ∷ [])
      (issue_ticket services (λ n. n + 10) ttl 100 for_device []).1

-- Values of the four kinds that the service stores, with keys apart.
data Stored : Type 0 where
  a_request : CliAuthRequest → Stored
  a_grant : CliAuthGrant → Stored
  a_token : CliTokenRecord → Stored
  a_count : ℕ → Stored

abbrev request_of : Stored → Option CliAuthRequest
request_of (a_request r) = some r
request_of _ = none

abbrev grant_of : Stored → Option CliAuthGrant
grant_of (a_grant g) = some g
grant_of _ = none

abbrev count_of : Stored → ℕ
count_of (a_count n) = n
count_of _ = 0

abbrev cli_services : CliAuth.Services Stored
cli_services = record {
  request_key = λ id. 4 * id;
  grant_key = λ id. 4 * id + 1;
  attempts_key = λ id. 4 * id + 2;
  cli_token_key = λ hash. 4 * hash + 3;
  sha256_hex = length;
  write_request = a_request;
  read_request = request_of;
  write_grant = a_grant;
  read_grant = grant_of;
  write_token = a_token;
  counts = record { number = count_of; text = a_count };
}

abbrev cli_config : CliAuth.Config
cli_config = record { cli_auth_request_ttl_ms = 100; cli_token_ttl_ms = 1000 }

-- A headless request, approved with its code.
abbrev approved : Store Stored
approved =
    (approve_cli_auth cli_services 20
      (record {
        request_id = 7;
        user_id = 3;
        user_code = some (119 ∷ 45 ∷ 68 ∷ []);
        drawn_code = [];
      })
      (start_cli_auth cli_services cli_config 10 none 7 (1 ∷ 2 ∷ 3 ∷ []) (87 ∷ 68 ∷ []) [])).1

abbrev redeemed : Exchange
redeemed = record {
  now = 30;
  request_id = 7;
  cli_secret = 1 ∷ 2 ∷ 3 ∷ [];
  code = none;
  drawn_token = 8 ∷ [];
}

-- Two calls load the request before either takes the grant, and the second is in time.
abbrev race : List (ℕ × ℕ)
race = (0, 1) ∷ (0, 2) ∷ (1, 2) ∷ (1, 1) ∷ (0, 2) ∷ (0, 2) ∷ (0, 1) ∷ []

abbrev raced : World Stored
raced =
    turns cli_services cli_config (λ n. redeemed) race
      (record { time = 30; store = approved; calls = λ n. entered })

raced_won : has_won (raced.calls 2) ≡ true
unfolding has_won exchange_step check_request take_grant redeem code_right live_request
    approve_cli_auth approve_with approved_as redirect_url wrong_code store_grant load_request
    normalize_user_code normal start_cli_auth set set_unless get getdel read_entry take_entry live
    deadline expired del lookup insert delete
raced_won = refl

keys_differ : (hash id : ℕ) → (4 * hash + 3) ≢ (4 * id + 1)
keys_differ hash id e = absurd (omega arith)

exchange_step_once_example : has_won (raced.calls 1) ≡ false
exchange_step_once_example =
    exchange_step_once cli_services cli_config (λ n. redeemed) keys_differ race 30 approved 2 1
      (λ e. absurd (omega arith)) refl raced_won
