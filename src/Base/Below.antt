-- ===== src/Base/Below.antt =====
-- A test of all numbers below a bound, for tables that are checked by computing.
use Prim.Native.Nat.{ℕ, zero, suc, ◌<◌}
use mathlib.Core.Path.{◌≡◌}
use mathlib.Core.Bool.{Bool, true, ◌&&◌}
use native.Mathlib.Omega.{arith}

unfoldable pub all_below : (ℕ → Bool) → ℕ → Bool
all_below test zero = true
all_below test (suc n) = test n && all_below test n

pub all_below-at : (test : ℕ → Bool) (k n : ℕ) → all_below test k ≡ true → n < k → test n ≡ true
unfolding all_below
all_below-at test zero n all below = ground arith
all_below-at test (suc k) n all below = let rest = all_below-at test k n in ground (arith, rest)
