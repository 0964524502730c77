-- ===== src/Base/Words.antt =====
-- Go's uint, 64 bits wide: sums and differences wrap.
use Prim.Native.Nat.{ℕ, ◌+◌, ◌-◌, ◌%◌, ◌<◌, ◌≤◌}
use mathlib.Core.Path.{◌≡◌}
use native.Mathlib.Omega.{arith}

abbrev pub u64_mod : ℕ
u64_mod = 18446744073709551616

unfoldable pub u_add : ℕ → ℕ → ℕ
u_add a b = (a + b) % u64_mod

-- `-` on the numbers stops at 0, so the modulus is added first.
unfoldable pub u_sub : ℕ → ℕ → ℕ
u_sub a b = (a + u64_mod - b) % u64_mod

pub u_add_exact : (a b : ℕ) → a + b < u64_mod → u_add a b ≡ a + b
unfolding u_add
u_add_exact a b h = omega arith

pub u_sub_exact : (a b : ℕ) → b ≤ a → a < u64_mod → u_sub a b ≡ a - b
unfolding u_sub
u_sub_exact a b h k = omega arith
