-- ===== src/Base/Tables.antt =====
-- Facts about every number of a small range, by evaluating them all.
use Prim.Native.Nat.{ℕ, zero, suc, ◌<◌}
use mathlib.Core.Path.{◌≡◌}
use mathlib.Core.Bool.{Bool, true, false}
use native.Mathlib.Omega.{arith}
use firebirdsql_go.Base.Tests.{if◌then◌else◌}

module _ (holds : ℕ → Bool) where
  -- Of 0, 1, … below the bound.
  unfoldable pub holds_to : ℕ → Bool
  holds_to zero = true
  holds_to (suc bound) = if holds bound then holds_to bound else false

  pub holds_to→holds : (bound : ℕ) → holds_to bound ≡ true → (i : ℕ) → i < bound → holds i ≡ true
  unfolding holds_to
  holds_to→holds zero e i lt = absurd (omega arith)
  holds_to→holds (suc bound) e i lt = ground (arith, holds_to→holds bound (ground arith) i)
