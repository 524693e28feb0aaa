-- ===== src/ControlPlane/RateLimit.antt =====
-- apps/control-plane/src/services/rate-limit.ts: a fixed-window counter.
pub mod Window
use pherry.Base.{ℕ, Bool, true, List, Option, some, leb}
use pherry.ControlPlane.Redis.{Store, Counts, set, incr}

module _ {V : Type 0} (c : Counts V) where
  -- `checkRateLimit`: the store reads its clock at the `set`, and again at the `incr` behind it.
  unfoldable pub check_rate_limit : ℕ → ℕ → ℕ → ℕ → ℕ → Store V → Bool × Store V
  check_rate_limit set_at incr_at key limit window_ms s =
      let seeded = (set set_at key (c.text 0) true (some window_ms) s).1 in
      let (count, s') = incr c incr_at key seeded in (leb count limit, s')
