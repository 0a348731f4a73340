-- ===== src/Base/Quot.antt =====
-- Go's `/`, `%` and `*` on signed integers: division truncates towards zero.
use Prim.Native.Nat.{ℕ, zero, suc, ◌+◌, ◌-◌, ◌*◌, ◌/◌, ◌%◌, ◌≤◌}
use mathlib.Core.Path.{◌≡◌}
use native.Mathlib.Omega.{arith}
use firebirdsql_go.Base.Int.{ℤ, pos, negsuc, ◌+ℤ◌, ◌-ℤ◌}

-- -n
abbrev pub neg_ℕ : ℕ → ℤ
neg_ℕ zero = pos 0
neg_ℕ (suc n) = negsuc n

infixl 70 ◌/ℤ◌ ◌%ℤ◌ ◌*ℤ◌
abbrev pub ◌/ℤ◌ : ℤ → ℕ → ℤ
pos n /ℤ k = pos (n / k)
negsuc n /ℤ k = neg_ℕ (suc n / k)

abbrev pub ◌%ℤ◌ : ℤ → ℕ → ℤ
pos n %ℤ k = pos (n % k)
negsuc n %ℤ k = neg_ℕ (suc n % k)

-- By a constant.
abbrev pub ◌*ℤ◌ : ℤ → ℕ → ℤ
pos n *ℤ k = pos (n * k)
negsuc n *ℤ k = neg_ℕ (suc n * k)

pub pos-+ℤ : (a b : ℕ) → pos a +ℤ pos b ≡ pos (a + b)
unfolding ◌+ℤ◌
pos-+ℤ a b = ground arith

pub pos--ℤ : (a b : ℕ) → b ≤ a → pos a -ℤ pos b ≡ pos (a - b)
unfolding ◌-ℤ◌
pos--ℤ a b h = ground arith
