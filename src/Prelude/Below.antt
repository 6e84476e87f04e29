-- ===== src/Prelude/Below.antt =====
-- A test on every number below a bound, run as a program.
use Prim.Native.Nat.{ℕ, zero, suc, ◌<◌}
use mathlib.Core.Path.{◌≡◌, ap}
use mathlib.Core.Bool.{Bool, true, false}
use native.Mathlib.Omega.{arith}
use native.Mathlib.Decide.{ℕ_discrete}
use lbard.Prelude.Tests.{if◌then◌else◌}

unfoldable pub every : (ℕ → Bool) → ℕ → Bool
every test zero = true
every test (suc bound) = if test bound then every test bound else false

pub holds_below :
    (test : ℕ → Bool) (k bound : ℕ) → k < bound → every test bound ≡ true → test k ≡ true
unfolding every
holds_below test k zero below all = absurd (omega arith)
holds_below test k (suc bound) below all = elim (ℕ_discrete k bound) [
  | yes last ↦ ground (arith, ap test last)
  | no earlier ↦ ground (arith, holds_below test k bound)
]
