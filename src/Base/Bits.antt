-- ===== src/Base/Bits.antt =====
-- The native `bit_or` as a sum, where its arguments share no binary digit.
use Prim.Native.Nat.{
  ℕ, zero, suc, ◌+◌, ◌*◌, ◌/◌, ◌%◌, ◌^◌, ◌≤◌, ◌<◌, max, digits, bit_or, bit_or-bitwise,
}
use mathlib.Core.Path.{◌≡◌, refl, ap}
use native.Mathlib.Nat.{pow-suc}
use native.Mathlib.Omega.{arith}

-- The recursion that bit_or stands for, on fuel.
abbrev or_digits : ℕ → ℕ → ℕ → ℕ
or_digits n a b = digits (λ d. d) max n a b

more_fuel : (n m a b : ℕ) → a ≤ n → a ≤ m → or_digits n a b ≡ or_digits m a b
more_fuel zero m zero b low high = nothing_left m
  where
    nothing_left : (m : ℕ) → or_digits zero zero b ≡ or_digits m zero b
    nothing_left zero = refl
    nothing_left (suc m) = refl
more_fuel zero m (suc a) b low high = absurd (omega arith)
more_fuel (suc n) zero zero b low high = refl
more_fuel (suc n) (suc m) zero b low high = refl
more_fuel (suc n) zero (suc a) b low high = absurd (omega arith)
more_fuel (suc n) (suc m) (suc a) b low high =
    omega (arith, more_fuel n m (suc a / 2) (b / 2) (omega arith) (omega arith))

halve-bit_or : (a b : ℕ) → bit_or a b ≡ bit_or (a / 2) (b / 2) * 2 + max (a % 2) (b % 2)
halve-bit_or zero b = omega (arith, bit_or-bitwise 0 b, bit_or-bitwise 0 (b / 2))
halve-bit_or (suc a) b = omega (
  arith,
  bit_or-bitwise (suc a) b,
  bit_or-bitwise (suc a / 2) (b / 2),
  more_fuel a (suc a / 2) (suc a / 2) (b / 2) (omega arith) (omega arith),
)

bit_or-nothing : (n a : ℕ) → a ≤ n → bit_or a 0 ≡ a
bit_or-nothing n zero h = refl
bit_or-nothing zero (suc a) h = absurd (omega arith)
bit_or-nothing (suc n) (suc a) h =
    omega (arith, halve-bit_or (suc a) 0, bit_or-nothing n (suc a / 2) (omega arith))

double_shift : (high k : ℕ) → high * 2 ^ suc k ≡ 2 * (high * 2 ^ k)
double_shift high k = omega (arith, ap (λ (w : ℕ). high * w) (pow-suc 2 k))

-- A shifted number or-ed with one that fits below the shift.
pub bit_or-shifted : (k high low : ℕ) → low < 2 ^ k → bit_or (high * 2 ^ k) low ≡ high * 2 ^ k + low
bit_or-shifted zero high low fits = ground (arith, bit_or-nothing high high (omega arith))
bit_or-shifted (suc k) high low fits = ground (
  arith,
  halve-bit_or (high * 2 ^ suc k) low,
  double_shift high k,
  bit_or-shifted k high (low / 2) (omega arith),
)
