-- ===== src/Prelude/Bits.antt =====
-- A test that holds of every number under a bound is decided by trying them all.
use Prim.Native.Nat.{ℕ, zero, suc, ◌<◌}
use mathlib.Core.Path.{◌≡◌}
use mathlib.Core.Bool.{Bool, true, false}
use native.Mathlib.Omega.{arith}
use umbra_os.Prelude.Tests.{if◌then◌else◌}

unfoldable pub holds_under : ℕ → (ℕ → Bool) → Bool
holds_under zero test = true
holds_under (suc last) test =
    let below = holds_under last test in if test last then below else false

pub holds_at :
    (bound : ℕ) (test : ℕ → Bool)
    → holds_under bound test ≡ true
    → (i : ℕ) → i < bound
    → test i ≡ true
unfolding holds_under
holds_at zero test tried i small = absurd (omega arith)
holds_at (suc last) test tried i small =
    let step : holds_under last test ≡ true → i < last → test i ≡ true =
      λ below. holds_at last test below i in
    ground (arith, step)
