-- ===== src/ControlPlane/CliAuth.antt =====
-- apps/control-plane/src/services/cli-auth.ts: a command line's request, its approval and the exchange for a
-- token, over the store. An exchange goes in steps, from one `await` to the next; a start and an approval
-- run without another call between their awaits. Texts are lists of character codes, and an id is a number that stands for its text.
pub mod Once
use pherry.Base.{
  ℕ, ◌+◌, ◌-◌, ◌≤◌, Bool, true, false, not, ◌&&◌, ◌||◌, List, [], ◌∷◌, ◌++◌, Option, none, some,
  max, leb, ◌==◌, if◌then◌else◌, length,
}
use pherry.Base.Maps.{member}
use pherry.ControlPlane.Redis.{Store, Counts, set, get, getdel, del, incr}

abbrev pub max_approve_attempts : ℕ
max_approve_attempts = 5

-- `CliAuthRequest`
pub record CliAuthRequest : Type 0 where
  pub secret_hash : ℕ
  pub callback : Option (List ℕ)
  pub expires_at : ℕ
  pub user_code_hash : Option ℕ

-- `CliAuthGrant`
pub record CliAuthGrant : Type 0 where
  pub user_id : ℕ
  pub code_hash : Option ℕ

-- `CliTokenRecord` of auth.ts.
pub record CliTokenRecord : Type 0 where
  pub user_id : ℕ
  pub expires_at : ℕ

-- The fields of `Config` that the service reads.
pub record Config : Type 0 where
  pub cli_auth_request_ttl_ms : ℕ
  pub cli_token_ttl_ms : ℕ

-- What the service takes from elsewhere: the keys of the store, SHA-256 in hexadecimal, and JSON with the
-- schemas' checks (a `read` is `none` where either throws).
pub record Services (V : Type 0) : Type 0 where
  pub request_key : ℕ → ℕ
  pub grant_key : ℕ → ℕ
  pub attempts_key : ℕ → ℕ
  pub cli_token_key : ℕ → ℕ
  pub sha256_hex : List ℕ → ℕ
  pub write_request : CliAuthRequest → V
  pub read_request : V → Option CliAuthRequest
  pub write_grant : CliAuthGrant → V
  pub read_grant : V → Option CliAuthGrant
  pub write_token : CliTokenRecord → V
  pub counts : Counts V

-- A letter or a digit of ASCII, the letter in upper case.
unfoldable pub normal : ℕ → List ℕ
normal c =
    if leb 97 c && leb c 122
    then (c - 32) ∷ []
    else if (leb 65 c && leb c 90) || (leb 48 c && leb c 57)
    then c ∷ []
    else []

-- `normalizeUserCode`, of a text in ASCII.
unfoldable pub normalize_user_code : List ℕ → List ℕ
normalize_user_code [] = []
normalize_user_code (c ∷ text) = normal c ++ normalize_user_code text

-- `appendCode`: the codes of `&`, `?` and `code=`.
unfoldable pub append_code : List ℕ → List ℕ → List ℕ
append_code callback code =
    callback ++ (if member 63 callback then 38 else 63) ∷ (99 ∷ 111 ∷ 100 ∷ 101 ∷ 61 ∷ code)

-- The result of `exchangeCliAuth`.
pub data ExchangeCliAuthResult : Type 0 where
  pending : ExchangeCliAuthResult
  ok : List ℕ → ℕ → ExchangeCliAuthResult

-- The arguments of `approveCliAuth`, with the code that it draws.
pub record Approval : Type 0 where
  pub request_id : ℕ
  pub user_id : ℕ
  pub user_code : Option (List ℕ)
  pub drawn_code : List ℕ

-- The arguments of `exchangeCliAuth`, with the token that it draws.
pub record Exchange : Type 0 where
  pub now : ℕ
  pub request_id : ℕ
  pub cli_secret : List ℕ
  pub code : Option (List ℕ)
  pub drawn_token : List ℕ

-- Where a call of `exchangeCliAuth` is: before its first `await`, before the `getdel`, before the `set`
-- of the token, before the `del`, or at its result (`none` is the `null`).
pub data Progress : Type 0 where
  entered : Progress
  checked : CliAuthRequest → Progress
  granted : CliAuthGrant → Progress
  stored : ℕ → Progress
  returned : Option ExchangeCliAuthResult → Progress

-- Whether a text is there and hashes to a hash that is there.
abbrev pub hash_matches : (List ℕ → ℕ) → Option (List ℕ) → Option ℕ → Bool
hash_matches hash none expected = false
hash_matches hash (some text) none = false
hash_matches hash (some text) (some expected) = hash text == expected

module _ {V : Type 0} (k : Services V) where
  -- `loadRequest`, on what `get` answers.
  unfoldable pub live_request : ℕ → Option V → Option CliAuthRequest
  live_request now none = none
  live_request now (some raw) = elim (k.read_request raw) [
    | none ↦ none
    | some r ↦ if leb r.expires_at now then none else some r
  ]

  -- `loadRequest`
  unfoldable pub load_request : ℕ → ℕ → Store V → Option CliAuthRequest × Store V
  load_request now request_id s =
      let found = get now (k.request_key request_id) s in (live_request now found.0, found.1)

  -- `describeCliAuthRequest`: whether a live request needs a code.
  unfoldable pub describe_cli_auth_request : ℕ → ℕ → Store V → Option Bool × Store V
  describe_cli_auth_request now request_id s =
      let loaded = load_request now request_id s in
      (
        elim loaded.0 [
          | none ↦ none
          | some r ↦ some (elim r.user_code_hash [ none ↦ false | some h ↦ true ])
        ],
        loaded.1,
      )

  -- `startCliAuth`: the store, given the id, the secret and, without a callback, the user's code that it draws.
  unfoldable pub start_cli_auth :
      Config → ℕ → Option (List ℕ) → ℕ → List ℕ → List ℕ → Store V → Store V
  start_cli_auth config now callback request_id cli_secret user_code s =
      let r : CliAuthRequest = record {
        secret_hash = k.sha256_hex cli_secret;
        callback = callback;
        expires_at = now + config.cli_auth_request_ttl_ms;
        user_code_hash = elim callback [
          | none ↦ some (k.sha256_hex (normalize_user_code user_code))
          | some url ↦ none
        ];
      } in
      (set now (k.request_key request_id) (k.write_request r) true
        (some config.cli_auth_request_ttl_ms) s).1

  -- Whether a request that wants a user's code was given no such code.
  unfoldable pub wrong_code : Option ℕ → Option (List ℕ) → Bool
  wrong_code none user_code = false
  wrong_code (some expected) none = true
  wrong_code (some expected) (some text) =
      let provided = normalize_user_code text in
      (length provided == 0) || not (k.sha256_hex provided == expected)

  -- A wrong code spends an attempt, and the last one the request.
  unfoldable pub spend_attempt : ℕ → ℕ → CliAuthRequest → Store V → Store V
  spend_attempt now request_id r s =
      let key = k.attempts_key request_id in
      let seeded = (set now key (k.counts.text 0) true (some (max 1 (r.expires_at - now))) s).1 in
      let counted = incr k.counts now key seeded in
      if leb max_approve_attempts counted.0
      then del (k.request_key request_id) counted.1
      else counted.1

  -- `approveCliAuth` from the grant on: whether it was stored.
  unfoldable pub store_grant : ℕ → Approval → CliAuthRequest → Store V → Bool × Store V
  store_grant now args r s =
      let grant : CliAuthGrant = record {
        user_id = args.user_id;
        code_hash = elim r.callback [
          | none ↦ none
          | some url ↦ some (k.sha256_hex args.drawn_code)
        ];
      } in
      set now (k.grant_key args.request_id) (k.write_grant grant) true (some (r.expires_at - now)) s

  -- The redirect of a request with a callback.
  unfoldable pub redirect_url : Option (List ℕ) → List ℕ → Option (List ℕ)
  redirect_url none code = none
  redirect_url (some callback) code = some (append_code callback code)

  -- The result of `approveCliAuth` once the grant was stored, or was there: the redirect, if there is one.
  unfoldable pub approved_as : Option (List ℕ) → Bool × Store V → Option (Option (List ℕ)) × Store V
  approved_as redirect (true, s) = (some redirect, s)
  approved_as redirect (false, s) = (none, s)

  unfoldable pub approve_with :
      ℕ → Approval → Option CliAuthRequest → Store V → Option (Option (List ℕ)) × Store V
  approve_with now args none s = (none, s)
  approve_with now args (some r) s =
      if wrong_code r.user_code_hash args.user_code
      then (none, spend_attempt now args.request_id r s)
      else approved_as (redirect_url r.callback args.drawn_code) (store_grant now args r s)

  -- `approveCliAuth`: `none` where it refuses.
  unfoldable pub approve_cli_auth : ℕ → Approval → Store V → Option (Option (List ℕ)) × Store V
  approve_cli_auth now args s =
      let loaded = load_request now args.request_id s in approve_with now args loaded.0 loaded.1

  -- The check of the code, which only a request with a callback has.
  unfoldable pub code_right : Option (List ℕ) → Option (List ℕ) → Option ℕ → Bool
  code_right none code code_hash = true
  code_right (some url) code code_hash = hash_matches k.sha256_hex code code_hash

  -- `exchangeCliAuth` on the request that was loaded, up to the `getdel`.
  unfoldable pub check_request : Exchange → Option CliAuthRequest → Progress
  check_request args none = returned none
  check_request args (some r) =
      if k.sha256_hex args.cli_secret == r.secret_hash then checked r else returned none

  -- With the grant that is burned, up to the `set` of the token.
  unfoldable pub redeem : Exchange → CliAuthRequest → Option CliAuthGrant → Progress
  redeem args r none = returned none
  redeem args r (some grant) =
      if code_right r.callback args.code grant.code_hash then granted grant else returned none

  -- On what `getdel` of the grant's key answers.
  unfoldable pub take_grant : Exchange → CliAuthRequest → Option V → Progress
  take_grant args r none = returned (some pending)
  take_grant args r (some raw) = redeem args r (k.read_grant raw)

  -- `exchangeCliAuth` from one `await` to the next, when the store's clock is at `time`. Between two steps
  -- of one call others may run.
  unfoldable pub exchange_step : Config → Exchange → ℕ → Progress → Store V → Progress × Store V
  exchange_step config args time entered s =
      let found = get time (k.request_key args.request_id) s in
      (check_request args (live_request args.now found.0), found.1)
  exchange_step config args time (checked r) s =
      let taken = getdel time (k.grant_key args.request_id) s in
      (take_grant args r taken.0, taken.1)
  exchange_step config args time (granted grant) s =
      let expires_at = args.now + config.cli_token_ttl_ms in
      let token : CliTokenRecord = record { user_id = grant.user_id; expires_at = expires_at } in
      let key = k.cli_token_key (k.sha256_hex args.drawn_token) in
      (
        stored expires_at,
        (set time key (k.write_token token) false (some config.cli_token_ttl_ms) s).1,
      )
  exchange_step config args time (stored expires_at) s =
      (returned (some (ok args.drawn_token expires_at)), del (k.request_key args.request_id) s)
  exchange_step config args time (returned r) s = (returned r, s)
