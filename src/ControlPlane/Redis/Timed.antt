-- ===== src/ControlPlane/Redis/Timed.antt =====
-- The abstract store of apps/control-plane/src/redis.ts: at each time, a map from keys to values. The
-- eviction of what has expired is not seen.
use pherry.Base.{
  ℕ, suc, ◌≤◌, ◌≡◌, ◌⊎◌, inl, inr, refl, sym, ap, ◌∙◌, Bool, true, false, Option, none, some, ◌==◌,
  ltb, leb, if◌then◌else◌, arith, Option-cases, Bool-cases, ℕ_discrete, some_inj, ==_self,
}
use pherry.Base.Maps.{lookup, insert, delete, lookup-insert, lookup-delete}
use pherry.ControlPlane.Redis.{
  Entry, Store, Counts, deadline, expired, live, set_unless, set, read_entry, get, take_entry,
  getdel, bump, incr,
}

module _ {V : Type 0} where
  -- A value until a deadline, if there is one.
  abbrev pub until : ℕ → V → Option ℕ → Option V
  until t value none = some value
  until t value (some at_) = if ltb t at_ then some value else none

  -- What an entry shows at a time: its value before its deadline, and nothing from then on.
  unfoldable pub shown : ℕ → Option (Entry V) → Option V
  shown t none = none
  shown t (some entry) = until t entry.value entry.expires_at

  shown_gone : (t : ℕ) (entry : Entry V) → expired t entry ≡ true → shown t (some entry) ≡ none
  unfolding shown expired
  shown_gone t entry e = elim (Option-cases entry.expires_at) [
    | inl q ↦ let never : expired t entry ≡ false = rw (q, expired) refl in absurd (cc)
    | inr (at_, q) ↦
        let past : expired t entry ≡ leb at_ t = rw (q, expired) refl in
        rw (q, shown) (ground (arith, past, e))
  ]

  pub shown_live :
      (t : ℕ) (entry : Entry V) → expired t entry ≡ false → shown t (some entry) ≡ some entry.value
  unfolding shown expired
  shown_live t entry e = elim (Option-cases entry.expires_at) [
    | inl q ↦ rw (q, shown) refl
    | inr (at_, q) ↦
        let past : expired t entry ≡ leb at_ t = rw (q, expired) refl in
        rw (q, shown) (ground (arith, past, e))
  ]

  -- What is seen of a store at a time, under a key.
  unfoldable pub seen : ℕ → ℕ → Store V → Option V
  seen t key s = shown t (lookup key s)

  expired_later :
      (now t : ℕ) (entry : Entry V) → now ≤ t → expired now entry ≡ true → expired t entry ≡ true
  unfolding expired
  expired_later now t entry h e = ground arith

  pub seen-delete :
      (t key j : ℕ) (s : Store V)
      → seen t j (delete key s) ≡ (if key == j then none else seen t j s)
  unfolding seen shown
  seen-delete t key j s = ground (arith, lookup-delete j key s)

  pub deleted_gone : (t key : ℕ) (s : Store V) → seen t key (delete key s) ≡ none
  deleted_gone t key s =
      seen-delete t key key s ∙ ap (λ b. if b then none else seen t key s) (==_self key)

  seen-insert :
      (t key j : ℕ) (entry : Entry V) (s : Store V)
      → seen t j (insert key entry s) ≡ (if key == j then shown t (some entry) else seen t j s)
  unfolding seen
  seen-insert t key j entry s = elim (ℕ_discrete key j) [
    | yes e ↦ ground (arith, lookup-insert j key entry s)
    | no e ↦ ground (arith, lookup-insert j key entry s)
  ]

  -- No later time sees that an expired entry is gone.
  seen_evicted :
      (now key : ℕ) (entry : Entry V) (s : Store V)
      → lookup key s ≡ some entry
      → expired now entry ≡ true
      → (t j : ℕ) → now ≤ t
      → seen t j (delete key s) ≡ seen t j s
  unfolding seen shown
  seen_evicted now key entry s e q t j h = elim (ℕ_discrete key j) [
    | yes same ↦ rw (← same) (
        seen-delete t key key s
        ∙ (let gone : seen t key s ≡ none =
              rw (e, seen) (shown_gone t entry (expired_later now t entry h q)) in
            ground arith))
    | no other ↦ ground (arith, seen-delete t key j s)
  ]

  -- `#live` finds what is seen, and no later time sees the eviction.
  pub live_cases :
      (now key : ℕ) (s : Store V)
      → ((s' : Store V) × (seen now key s ≡ none)
          × (live now key s ≡ (none, s'))
          × ((t j : ℕ) → now ≤ t → seen t j s' ≡ seen t j s))
        ⊎ ((entry : Entry V) × (lookup key s ≡ some entry)
            × (expired now entry ≡ false)
            × (live now key s ≡ (some entry, s))
            × (seen now key s ≡ some entry.value))
  unfolding live seen shown
  live_cases now key s = elim (Option-cases (lookup key s)) [
    | inl e ↦ inl (s, rw e refl, rw (e, live) refl, λ t j h. refl)
    | inr (entry, e) ↦ elim (Bool-cases (expired now entry)) [
      | inl q ↦ inl (
        delete key s,
        rw e (shown_gone now entry q),
        rw (e, live) (rw q refl),
        seen_evicted now key entry s e q,
      )
      | inr q ↦ inr (entry, e, q, rw (e, live) (rw q refl), rw e (shown_live now entry q))
    ]
  ]

  pub seen_gone :
      (now t key : ℕ) (s : Store V) → now ≤ t → seen now key s ≡ none → seen t key s ≡ none
  unfolding seen shown
  seen_gone now t key s h e = elim (Option-cases (lookup key s)) [
    | inl q ↦ rw q refl
    | inr (entry, q) ↦ elim (Bool-cases (expired now entry)) [
      | inl r ↦ rw q (shown_gone t entry (expired_later now t entry h r))
      | inr r ↦
          let shows : seen now key s ≡ some entry.value = rw (q, seen) (shown_live now entry r) in
          cc
    ]
  ]

  seen_gone_if :
      (now t key j : ℕ) (s : Store V)
      → now ≤ t
      → seen now key s ≡ none
      → seen t j s ≡ (if key == j then none else seen t j s)
  seen_gone_if now t key j s h e = elim (ℕ_discrete key j) [
    | yes same ↦ ground (arith, seen_gone now t key s h e, ap (λ x. seen t x s) same)
    | no other ↦ ground arith
  ]

  -- `get` answers what is seen, and changes nothing that is seen from then on.
  pub get-seen :
      (now key : ℕ) (s : Store V) (t j : ℕ)
      → now ≤ t
      → ((get now key s).0 ≡ seen now key s) × (seen t j (get now key s).1 ≡ seen t j s)
  unfolding get read_entry
  get-seen now key s t j h = elim (live_cases now key s) [
    | inl (s', e, l, same) ↦
        (ap (λ r. (read_entry r).0) l ∙ sym e, ap (λ r. seen t j (read_entry r).1) l ∙ same t j h)
    | inr (entry, _, _, l, e) ↦
        (ap (λ r. (read_entry r).0) l ∙ sym e, ap (λ r. seen t j (read_entry r).1) l)
  ]

  -- `getdel` answers what is seen, of which from then on nothing is seen under the key.
  pub getdel-seen :
      (now key : ℕ) (s : Store V) (t j : ℕ)
      → now ≤ t
      → ((getdel now key s).0 ≡ seen now key s)
        × (seen t j (getdel now key s).1 ≡ (if key == j then none else seen t j s))
  unfolding getdel take_entry
  getdel-seen now key s t j h = elim (live_cases now key s) [
    | inl (s', e, l, same) ↦ (
      ap (λ r. (take_entry key r).0) l ∙ sym e,
      ap (λ r. seen t j (take_entry key r).1) l ∙ same t j h ∙ seen_gone_if now t key j s h e,
    )
    | inr (entry, _, _, l, e) ↦ (
      ap (λ r. (take_entry key r).0) l ∙ sym e,
      ap (λ r. seen t j (take_entry key r).1) l ∙ seen-delete t key j s,
    )
  ]

  -- `set` stores unless it may not overwrite what is seen, and says so.
  pub set_stores :
      (now key : ℕ) (value : V) (nx : Bool) (px_ms : Option ℕ) (s : Store V) (t j : ℕ)
      → now ≤ t
      → (nx ≡ false) ⊎ (seen now key s ≡ none)
      → ((set now key value nx px_ms s).0 ≡ true)
        × (seen t j (set now key value nx px_ms s).1 ≡ (
            if key == j
            then shown t (some (record { value = value; expires_at = deadline now px_ms }))
            else seen t j s))
  unfolding set set_unless
  set_stores now key value false px_ms s t j h free =
      (refl, seen-insert t key j (record { value = value; expires_at = deadline now px_ms }) s)
  set_stores now key value true px_ms s t j h (inl e) = absurd (cc)
  set_stores now key value true px_ms s t j h (inr e) = elim (live_cases now key s) [
    | inl (s', _, l, same) ↦
        let entry : Entry V = record { value = value; expires_at = deadline now px_ms } in
        (
          ap (λ r. (set_unless key entry r).0) l,
          ap (λ r. seen t j (set_unless key entry r).1) l
              ∙ seen-insert t key j entry s'
              ∙ ap (λ x. if key == j then shown t (some entry) else x) (same t j h),
        )
    | inr (entry, _, _, _, q) ↦ cc
  ]

  pub set_refused :
      (now key : ℕ) (value v : V) (px_ms : Option ℕ) (s : Store V)
      → seen now key s ≡ some v
      → set now key value true px_ms s ≡ (false, s)
  unfolding set set_unless
  set_refused now key value v px_ms s e = elim (live_cases now key s) [
    | inl (s', q, _, _) ↦ cc
    | inr (entry, _, _, l, _) ↦
        ap (set_unless key (record { value = value; expires_at = deadline now px_ms })) l
  ]

  -- A live entry keeps its deadline when it is counted up.
  pub incr_running :
      (c : Counts V) (now key : ℕ) (s : Store V) (entry : Entry V)
      → lookup key s ≡ some entry
      → expired now entry ≡ false
      → incr c now key s ≡ (
        suc (c.number entry.value),
        insert key (record entry { value = c.text (suc (c.number entry.value)) }) s,
      )
  unfolding incr bump seen shown
  incr_running c now key s entry e q = elim (live_cases now key s) [
    | inl (s', r, _, _) ↦
        let shows : seen now key s ≡ some entry.value = rw (e, seen) (shown_live now entry q) in cc
    | inr (found, e', _, l, _) ↦
        let same : found ≡ entry = some_inj (sym e' ∙ e) in rw (← same) (ap (bump c key) l)
  ]
