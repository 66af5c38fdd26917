-- ===== src/Bits/Step.antt =====
-- The native operations recur on binary digits with fuel. One equation for the lowest digit.
use Prim.Native.Nat.{min, max, digits, bitwise, differ, bit_and-bitwise, bit_or-bitwise}
use Prim.Native.Nat.{bit_xor-bitwise}
use native.Mathlib.Nat.{le_refl}
use mips.Prelude.{ℕ, zero, suc, ◌+◌, ◌*◌, ◌/◌, ◌%◌, ◌≤◌, bit_and, bit_or, bit_xor, ◌≡◌, refl, arith}

module _ (z : ℕ → ℕ) (f : ℕ → ℕ → ℕ) where
  -- Any two amounts of fuel that are no less than the first number are as good as each other.
  enough_fuel :
      (x y fuel other : ℕ) → x ≤ fuel → x ≤ other → digits z f fuel x y ≡ digits z f other x y
  enough_fuel zero y zero zero h g = refl
  enough_fuel zero y zero (suc other) h g = refl
  enough_fuel zero y (suc fuel) zero h g = refl
  enough_fuel zero y (suc fuel) (suc other) h g = refl
  enough_fuel (suc x) y zero other h g = absurd (omega arith)
  enough_fuel (suc x) y (suc fuel) zero h g = absurd (omega arith)
  enough_fuel (suc x) y (suc fuel) (suc other) h g =
      rw (enough_fuel (suc x / 2) (y / 2) fuel other (omega arith) (omega arith))

  bitwise_step :
      (x y : ℕ)
      → bitwise z f (suc x) y ≡ bitwise z f (suc x / 2) (y / 2) * 2 + f (suc x % 2) (y % 2)
  bitwise_step x y =
      omega (arith, enough_fuel (suc x / 2) (y / 2) x (suc x / 2) (omega arith) (le_refl _))

pub zero-bit_and : (b : ℕ) → bit_and 0 b ≡ 0
zero-bit_and b = bit_and-bitwise 0 b

pub zero-bit_or : (b : ℕ) → bit_or 0 b ≡ b
zero-bit_or b = bit_or-bitwise 0 b

pub zero-bit_xor : (b : ℕ) → bit_xor 0 b ≡ b
zero-bit_xor b = bit_xor-bitwise 0 b

-- In each, the first number is halved; at zero the equation is arithmetic.
pub bit_or_step : (x y : ℕ) → bit_or x y ≡ bit_or (x / 2) (y / 2) * 2 + max (x % 2) (y % 2)
bit_or_step (suc x) y = simp bit_or-bitwise (bitwise_step (λ d. d) max x y)
bit_or_step zero y = simp bit_or-bitwise (omega arith)

pub bit_xor_step : (x y : ℕ) → bit_xor x y ≡ bit_xor (x / 2) (y / 2) * 2 + differ (x % 2) (y % 2)
bit_xor_step (suc x) y = simp bit_xor-bitwise (bitwise_step (λ d. d) differ x y)
bit_xor_step zero y = simp (zero-bit_xor, digit) (omega arith)
  where
    digit : (d : ℕ) → differ 0 d ≡ d
    digit d = refl

pub bit_and_step : (x y : ℕ) → bit_and x y ≡ bit_and (x / 2) (y / 2) * 2 + min (x % 2) (y % 2)
bit_and_step (suc x) y = simp bit_and-bitwise (bitwise_step (λ d. 0) min x y)
bit_and_step zero y = simp bit_and-bitwise (omega arith)
