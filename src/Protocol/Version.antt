-- ===== src/Protocol/Version.antt =====
-- protocol/src/version.ts: whether two builds can talk to each other.
use pherry.Base.{ℕ, ◌≤◌, ◌≡◌, ◌↔◌, ltb, if◌then◌else◌, arith}

-- `CompatResult`
pub data CompatResult : Type 0 where
  ok peer_too_old self_too_old : CompatResult

-- `evaluateCompat` of a build with the given constants.
unfoldable pub evaluate_compat : ℕ → ℕ → ℕ → CompatResult
evaluate_compat min_compatible_version protocol_version peer_version =
    if ltb peer_version min_compatible_version
    then peer_too_old
    else if ltb protocol_version peer_version
    then self_too_old
    else ok

-- Two builds, each of which can talk to its own version, find each other compatible in both
-- directions exactly if they speak the same version.
pub evaluate_compat_mutual :
    (min_a a min_b b : ℕ)
    → min_a ≤ a
    → min_b ≤ b
    → ((evaluate_compat min_a a b ≡ ok) × (evaluate_compat min_b b a ≡ ok)) ↔ (a ≡ b)
unfolding evaluate_compat
evaluate_compat_mutual min_a a min_b b ha hb = ground arith
