-- ===== src/ControlPlane/Redis.antt =====
-- apps/control-plane/src/redis.ts: `MemoryRedis`. A method's body has no `await`, so each runs to its end
-- before another. A key is a number that stands for its text, `now` is the injected clock's time.
pub mod Timed
use pherry.Base.{ℕ, suc, ◌+◌, Bool, true, false, List, Option, none, some, leb, if◌then◌else◌}
use pherry.Base.Maps.{lookup, insert, delete}

-- `Entry`
pub record Entry (V : Type 0) : Type 0 where
  pub value : V
  pub expires_at : Option ℕ

abbrev pub Store : Type 0 → Type 0
Store V = List (ℕ × Entry V)

-- `Number` and `String` on the values that `incr` counts with.
pub record Counts (V : Type 0) : Type 0 where
  pub number : V → ℕ
  pub text : ℕ → V

-- `#now() + pxMs`, where a time to live is given.
unfoldable pub deadline : ℕ → Option ℕ → Option ℕ
deadline now none = none
deadline now (some px_ms) = some (now + px_ms)

module _ {V : Type 0} where
  unfoldable pub expired : ℕ → Entry V → Bool
  expired now entry = elim entry.expires_at [ none ↦ false | some at_ ↦ leb at_ now ]

  -- `#live`
  unfoldable pub live : ℕ → ℕ → Store V → Option (Entry V) × Store V
  live now key s = elim (lookup key s) [
    | none ↦ (none, s)
    | some entry ↦ if expired now entry then (none, delete key s) else (some entry, s)
  ]

  -- `set` with `nx`, on what `#live` found.
  unfoldable pub set_unless : ℕ → Entry V → Option (Entry V) × Store V → Bool × Store V
  set_unless key entry (some found, s) = (false, s)
  set_unless key entry (none, s) = (true, insert key entry s)

  -- `set`: whether it answers `OK`, and the store.
  unfoldable pub set : ℕ → ℕ → V → Bool → Option ℕ → Store V → Bool × Store V
  set now key value nx px_ms s =
      let entry : Entry V = record { value = value; expires_at = deadline now px_ms } in
      if nx then set_unless key entry (live now key s) else (true, insert key entry s)

  -- `get`, on what `#live` found.
  unfoldable pub read_entry : Option (Entry V) × Store V → Option V × Store V
  read_entry (none, s) = (none, s)
  read_entry (some entry, s) = (some entry.value, s)

  unfoldable pub get : ℕ → ℕ → Store V → Option V × Store V
  get now key s = read_entry (live now key s)

  -- `getdel`, on what `#live` found.
  unfoldable pub take_entry : ℕ → Option (Entry V) × Store V → Option V × Store V
  take_entry key (none, s) = (none, s)
  take_entry key (some entry, s) = (some entry.value, delete key s)

  unfoldable pub getdel : ℕ → ℕ → Store V → Option V × Store V
  getdel now key s = take_entry key (live now key s)

  -- `del`
  unfoldable pub del : ℕ → Store V → Store V
  del key s = delete key s

  -- `pexpire`, on what `#live` found.
  unfoldable pub postpone : ℕ → ℕ → Option (Entry V) × Store V → Store V
  postpone key at_ (none, s) = s
  postpone key at_ (some entry, s) = insert key (record entry { expires_at = some at_ }) s

  unfoldable pub pexpire : ℕ → ℕ → ℕ → Store V → Store V
  pexpire now key ms s = postpone key (now + ms) (live now key s)

  module _ (c : Counts V) where
    -- `incr`, on what `#live` found.
    unfoldable pub bump : ℕ → Option (Entry V) × Store V → ℕ × Store V
    bump key (none, s) = (1, insert key (record { value = c.text 1; expires_at = none }) s)
    bump key (some entry, s) =
        let next = suc (c.number entry.value) in
        (next, insert key (record { value = c.text next; expires_at = entry.expires_at }) s)

    unfoldable pub incr : ℕ → ℕ → Store V → ℕ × Store V
    incr now key s = bump key (live now key s)
