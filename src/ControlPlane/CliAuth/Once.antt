-- ===== src/ControlPlane/CliAuth/Once.antt =====
-- apps/control-plane/src/services/cli-auth.ts: of the calls that exchange one request, however their steps
-- interleave, one at most gets a token.
use pherry.Base.{
  ℕ, ◌+◌, ◌≡◌, ◌≢◌, ◌⊎◌, inl, inr, refl, sym, ap, ◌∙◌, Bool, true, false, List, [], ◌∷◌, Option,
  none, some, ◌==◌, if◌then◌else◌, if_elim, arith, Option-cases, Bool-cases, ℕ_discrete,
}
use pherry.Base.Maps.{update, update_self, update_ne}
use pherry.ControlPlane.Redis.{Store, getdel, get, del}
use pherry.ControlPlane.Redis.Timed.{
  seen, get-seen, getdel-seen, set_stores, seen-delete, seen_gone,
}
use pherry.ControlPlane.CliAuth.{
  Services, Config, CliAuthRequest, Exchange, Progress, entered, checked, granted, stored, returned,
  ok, pending, check_request, take_grant, exchange_step, live_request,
}

-- Whether a call holds the grant, or gave a token for it.
unfoldable pub has_won : Progress → Bool
has_won entered = false
has_won (checked r) = false
has_won (granted grant) = true
has_won (stored expires_at) = true
has_won (returned none) = false
has_won (returned (some pending)) = false
has_won (returned (some (ok token expires_at))) = true

-- The store, its clock, and the calls by number.
pub record World (V : Type 0) : Type 0 where
  pub time : ℕ
  pub store : Store V
  pub calls : ℕ → Progress

module _ {V : Type 0} (k : Services V) (config : Config) (args : ℕ → Exchange) where
  -- A call takes its next step, some time after the step before.
  abbrev pub turn : ℕ → ℕ → World V → World V
  turn delay i w =
      let after = exchange_step k config (args i) (w.time + delay) (w.calls i) w.store in
      record { time = w.time + delay; store = after.1; calls = update w.calls i after.0 }

  -- A schedule: the calls whose turns come, each with the delay before it.
  abbrev pub turns : List (ℕ × ℕ) → World V → World V
  turns [] w = w
  turns ((delay, i) ∷ schedule) w = turns schedule (turn delay i w)

  -- What one step does with the grants.
  record Step (t : ℕ) (id : ℕ) (p : Progress) (s : Store V) (r : Progress × Store V) : Type 0 where
    -- A grant that is gone stays gone.
    keeps : (key : ℕ) → seen t (k.grant_key key) s ≡ none → seen t (k.grant_key key) r.1 ≡ none
    -- A call that begins to win takes a grant that was there.
    wins :
        has_won r.0 ≡ true
        → (has_won p ≡ true)
          ⊎ ((v : V) × (seen t (k.grant_key id) s ≡ some v) × (seen t (k.grant_key id) r.1 ≡ none))

  check_request-lost :
      (a : Exchange) (o : Option CliAuthRequest) → has_won (check_request k a o) ≡ false
  unfolding has_won check_request
  check_request-lost a none = refl
  check_request-lost a (some r) =
      if_elim (λ p. has_won p ≡ false) (k.sha256_hex a.cli_secret == r.secret_hash) _ _ (λ _. refl)
        (λ _. refl)

  gone_if : (b : Bool) (o : Option V) → o ≡ none → (if b then none else o) ≡ none
  gone_if b o e = if_elim (λ x. x ≡ none) b none o (λ _. refl) (λ _. e)

  checked-Step :
      (a : Exchange) (t : ℕ) (r : CliAuthRequest) (s : Store V)
      → Step t a.request_id (checked r) s (exchange_step k config a t (checked r) s)
  unfolding has_won exchange_step take_grant
  checked-Step a t r s =
      let key = k.grant_key a.request_id in
      let answer = (getdel-seen t key s t key (omega arith)).0 in
      record {
        keeps = λ id e. (getdel-seen t key s t (k.grant_key id) (omega arith)).1 ∙ gone_if _ _ e;
        wins = λ won. elim (Option-cases (seen t key s)) [
          | inl e ↦
              let lost : has_won (take_grant k a r (getdel t key s).0) ≡ false =
                ap (λ o. has_won (take_grant k a r o)) (answer ∙ e) in
              absurd (cc)
          | inr (v, e) ↦ inr (v, e, (getdel-seen t key s t key (omega arith)).1 ∙ ground arith)
        ];
      }

  module _ (apart : (hash id : ℕ) → k.cli_token_key hash ≢ k.grant_key id) where
    exchange_step-Step :
        (a : Exchange) (t : ℕ) (p : Progress) (s : Store V)
        → Step t a.request_id p s (exchange_step k config a t p s)
    unfolding has_won exchange_step del
    exchange_step-Step a t entered s = record {
      keeps = λ id e.
          (get-seen t (k.request_key a.request_id) s t (k.grant_key id) (omega arith)).1 ∙ e;
      wins = λ won. absurd (
          cc
            (check_request-lost a (live_request k a.now (get t (k.request_key a.request_id) s).0)));
    }
    exchange_step-Step a t (checked r) s = checked-Step a t r s
    exchange_step-Step a t (granted grant) s = record {
      keeps = λ id e.
          (set_stores t (k.cli_token_key (k.sha256_hex a.drawn_token)) _ false
            (some config.cli_token_ttl_ms) s t (k.grant_key id) (omega arith) (inl refl)).1
          ∙ (let other = apart (k.sha256_hex a.drawn_token) id in ground arith);
      wins = λ won. inl refl;
    }
    exchange_step-Step a t (stored expires_at) s = record {
      keeps = λ id e. seen-delete t (k.request_key a.request_id) (k.grant_key id) s ∙ gone_if _ _ e;
      wins = λ won. inl refl;
    }
    exchange_step-Step a t (returned r) s = record { keeps = λ id e. e; wins = λ won. inl won }

    -- The grant of a call that won is gone, and another call for its request did not win.
    record OneWinner (w : World V) : Type 0 where
      gone :
          (i : ℕ)
          → has_won (w.calls i) ≡ true
          → seen w.time (k.grant_key (args i).request_id) w.store ≡ none
      once :
          (i j : ℕ)
          → has_won (w.calls i) ≡ true
          → has_won (w.calls j) ≡ true
          → (args i).request_id ≡ (args j).request_id
          → i ≡ j

    turn-OneWinner : (delay i : ℕ) (w : World V) → OneWinner w → OneWinner (turn delay i w)
    turn-OneWinner delay i w h =
        let t = w.time + delay in
        let r = exchange_step k config (args i) t (w.calls i) w.store in
        let step = exchange_step-Step (args i) t (w.calls i) w.store in
        let still : (j : ℕ)
            → has_won (w.calls j) ≡ true
            → seen t (k.grant_key (args j).request_id) w.store ≡ none =
          λ j won.
            seen_gone w.time t (k.grant_key (args j).request_id) w.store (omega arith)
              (h.gone j won) in
        let mine : update w.calls i r.0 i ≡ r.0 = update_self w.calls i r.0 in
        let theirs : (j : ℕ) → i ≢ j → update w.calls i r.0 j ≡ w.calls j =
          λ j ne. update_ne w.calls i j r.0 ne in
        -- If the one whose turn it is wins, no other for its request has won.
        let alone : (j : ℕ)
            → has_won r.0 ≡ true
            → has_won (w.calls j) ≡ true
            → (args i).request_id ≡ (args j).request_id
            → i ≡ j =
          λ j won other same. elim (step.wins won) [
            | inl before ↦ h.once i j before other same
            | inr (v, there, _) ↦
                let none_there : seen t (k.grant_key (args i).request_id) w.store ≡ none =
                  ap (λ id. seen t (k.grant_key id) w.store) same ∙ still j other in
                absurd (cc)
          ] in
        record {
          gone = λ j won. elim (ℕ_discrete i j) [
            | yes e ↦
                let won_i : has_won r.0 ≡ true =
                  sym (ap has_won (ap (update w.calls i r.0) (sym e) ∙ mine)) ∙ won in
                ap (λ n. seen t (k.grant_key (args n).request_id) r.1) (sym e)
                ∙ elim (step.wins won_i) [
                  | inl before ↦ step.keeps (args i).request_id (still i before)
                  | inr (v, there, taken) ↦ taken
                ]
            | no e ↦ step.keeps (args j).request_id (still j (sym (ap has_won (theirs j e)) ∙ won))
          ];
          once = λ a b won_a won_b same. elim (ℕ_discrete i a) [
            | yes ea ↦ elim (ℕ_discrete i b) [
              | yes eb ↦ sym ea ∙ eb
              | no eb ↦
                  sym ea
                  ∙ alone b (sym (ap has_won (ap (update w.calls i r.0) (sym ea) ∙ mine)) ∙ won_a)
                      (sym (ap has_won (theirs b eb)) ∙ won_b)
                      (ap (λ n. (args n).request_id) ea ∙ same)
            ]
            | no ea ↦ elim (ℕ_discrete i b) [
              | yes eb ↦
                  sym (
                    alone a (sym (ap has_won (ap (update w.calls i r.0) (sym eb) ∙ mine)) ∙ won_b)
                      (sym (ap has_won (theirs a ea)) ∙ won_a)
                      (ap (λ n. (args n).request_id) eb ∙ sym same))
                  ∙ eb
              | no eb ↦
                  h.once a b (sym (ap has_won (theirs a ea)) ∙ won_a)
                    (sym (ap has_won (theirs b eb)) ∙ won_b) same
            ]
          ];
        }

    turns-OneWinner :
        (schedule : List (ℕ × ℕ)) (w : World V) → OneWinner w → OneWinner (turns schedule w)
    turns-OneWinner [] w h = h
    turns-OneWinner ((delay, i) ∷ schedule) w h =
        turns-OneWinner schedule (turn delay i w) (turn-OneWinner delay i w h)

    -- Any number of calls, each with a secret, a code and a request of its own, begin at a store in which
    -- nobody but they writes, and take their steps in any order with any delays. Once one of them holds
    -- the grant or has returned a token, no other for the same request does, then or ever. The keys of
    -- tokens and of grants differ.
    pub exchange_step_once :
        (schedule : List (ℕ × ℕ)) (time : ℕ) (s : Store V) (i j : ℕ)
        → i ≢ j
        → (args i).request_id ≡ (args j).request_id
        → let w = turns schedule (record { time = time; store = s; calls = λ n. entered }) in
          has_won (w.calls i) ≡ true → has_won (w.calls j) ≡ false
    unfolding has_won
    exchange_step_once schedule time s i j differ same won =
        let start : World V = record { time = time; store = s; calls = λ n. entered } in
        let h =
          turns-OneWinner schedule start
            (record { gone = λ n won. absurd (cc); once = λ a b won_a won_b same. absurd (cc) }) in
        elim (Bool-cases (has_won ((turns schedule start).calls j))) [
          | inl other ↦ absurd (differ (h.once i j won other same))
          | inr lost ↦ lost
        ]
