-- ===== src/ControlPlane/RateLimit/Window.antt =====
-- apps/control-plane/src/services/rate-limit.ts: a window lets its budget through.
use pherry.Base.{
  ℕ, suc, ◌+◌, ◌<◌, ◌≡◌, refl, ap, ◌∙◌, Bool, true, false, List, [], ◌∷◌, none, some, leb, arith,
  All, inl, inr,
}
use pherry.Base.Maps.{lookup, insert, lookup-insert}
use pherry.ControlPlane.Redis.{Entry, Store, Counts, deadline, expired, set_unless, set, incr}
use pherry.ControlPlane.Redis.Timed.{live_cases, seen, shown_live, set_refused, incr_running}
use pherry.ControlPlane.RateLimit.{check_rate_limit}

-- One hit for each pair of the times of its `set` and of its `incr`, with the answers.
unfoldable pub hits : {V : Type 0} → Counts V → ℕ → ℕ → ℕ → List (ℕ × ℕ) → Store V → List Bool
hits c key limit window_ms [] s = []
hits c key limit window_ms ((set_at, incr_at) ∷ times) s =
    let hit = check_rate_limit c set_at incr_at key limit window_ms s in
    let rest = hits c key limit window_ms times hit.1 in hit.0 ∷ rest

-- The answers that a plain counter gives: a hit is allowed up to the limit.
unfoldable pub counted : ℕ → ℕ → List (ℕ × ℕ) → List Bool
counted limit count [] = []
counted limit count (at_ ∷ times) = leb (suc count) limit ∷ counted limit (suc count) times

module _ {V : Type 0} (c : Counts V) (number-text : (n : ℕ) → c.number (c.text n) ≡ n) where
  abbrev counter : ℕ → ℕ → Entry V
  counter count end_ = record { value = c.text count; expires_at = some end_ }

  counter_live : (now count end_ : ℕ) → now < end_ → expired now (counter count end_) ≡ false
  unfolding expired
  counter_live now count end_ h = ground arith

  counts :
      (now key count end_ : ℕ) (s : Store V)
      → lookup key s ≡ some (counter count end_)
      → now < end_
      → incr c now key s ≡ (suc count, insert key (counter (suc count) end_) s)
  counts now key count end_ s e h =
      incr_running c now key s (counter count end_) e (counter_live now count end_ h)
      ∙ ap (λ n. (suc n, insert key (counter (suc n) end_) s)) (number-text count)

  hit_running :
      (set_at incr_at key limit window_ms count end_ : ℕ) (s : Store V)
      → lookup key s ≡ some (counter count end_)
      → set_at < end_
      → incr_at < end_
      → check_rate_limit c set_at incr_at key limit window_ms s
        ≡ (leb (suc count) limit, insert key (counter (suc count) end_) s)
  unfolding check_rate_limit seen
  hit_running set_at incr_at key limit window_ms count end_ s e h before =
      let shows : seen set_at key s ≡ some (c.text count) =
        rw (e, seen) (shown_live set_at (counter count end_) (counter_live set_at count end_ h)) in
      let seeded : (set set_at key (c.text 0) true (some window_ms) s).1 ≡ s =
        ap (λ r. r.1) (set_refused set_at key (c.text 0) (c.text count) (some window_ms) s shows) in
      ap (λ x. (leb (incr c incr_at key x).0 limit, (incr c incr_at key x).1)) seeded
      ∙ ap (λ (r : ℕ × Store V). (leb r.0 limit, r.1)) (counts incr_at key count end_ s e before)

  running :
      (key limit window_ms count end_ : ℕ) (times : List (ℕ × ℕ)) (s : Store V)
      → lookup key s ≡ some (counter count end_)
      → All (λ at_. (at_.0 < end_) × (at_.1 < end_)) times
      → hits c key limit window_ms times s ≡ counted limit count times
  unfolding hits counted
  running key limit window_ms count end_ [] s e h = refl
  running key limit window_ms count end_ ((set_at, incr_at) ∷ times) s e h =
      ap (λ (r : Bool × Store V). r.0 ∷ hits c key limit window_ms times r.1)
        (hit_running set_at incr_at key limit window_ms count end_ s e h.0.0 h.0.1)
      ∙ ap (λ rest. leb (suc count) limit ∷ rest)
          (running key limit window_ms (suc count) end_ times _
            (ground (arith, lookup-insert key key (counter (suc count) end_) s)) h.1)

  -- The first hit, with the seed that it stores.
  seeded_hit :
      (now incr_at key limit window_ms : ℕ) (s : Store V)
      → seen now key s ≡ none
      → incr_at < now + window_ms
      → (s' : Store V) × (check_rate_limit c now incr_at key limit window_ms s
          ≡ (leb 1 limit, insert key (counter 1 (now + window_ms)) s'))
  unfolding check_rate_limit set set_unless deadline
  seeded_hit now incr_at key limit window_ms s e h = elim (live_cases now key s) [
    | inl (s', _, l, _) ↦
        let entry = counter 0 (now + window_ms) in
        let seeded : (set now key (c.text 0) true (some window_ms) s).1 ≡ insert key entry s' =
          ap (λ r. (set_unless key entry r).1) l in
        (
          insert key entry s',
          ap (λ x. (leb (incr c incr_at key x).0 limit, (incr c incr_at key x).1)) seeded
              ∙ ap (λ (r : ℕ × Store V). (leb r.0 limit, r.1))
                  (counts incr_at key 0 (now + window_ms) (insert key entry s')
                    (ground (arith, lookup-insert key key entry s')) h),
        )
    | inr (_, _, _, _, q) ↦ cc
  ]

  -- Where no counter is live, the hits of one window, which begins with the first of them and ends behind
  -- every `set` and `incr` of theirs, are allowed exactly up to the limit, if a stored count reads back as
  -- itself.
  pub hits_window :
      (key limit window_ms now incr_at : ℕ) (times : List (ℕ × ℕ)) (s : Store V)
      → seen now key s ≡ none
      → incr_at < now + window_ms
      → All (λ at_. (at_.0 < now + window_ms) × (at_.1 < now + window_ms)) times
      → hits c key limit window_ms ((now, incr_at) ∷ times) s
        ≡ counted limit 0 ((now, incr_at) ∷ times)
  unfolding hits counted
  hits_window key limit window_ms now incr_at times s e h before =
      let (s', first) = seeded_hit now incr_at key limit window_ms s e h in
      ap (λ (r : Bool × Store V). r.0 ∷ hits c key limit window_ms times r.1) first
      ∙ ap (λ rest. leb 1 limit ∷ rest)
          (running key limit window_ms 1 (now + window_ms) times _
            (ground (arith, lookup-insert key key (counter 1 (now + window_ms)) s')) before)
