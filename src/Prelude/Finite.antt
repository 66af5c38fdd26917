-- ===== src/Prelude/Finite.antt =====
-- A test on every number below a bound.
use Prim.Native.Nat.{ℕ, zero, suc, ◌<◌}
use mathlib.Core.Path.{◌≡◌, subst}
use mathlib.Core.Logic.{inl, inr}
use mathlib.Core.Bool.{Bool, true, ◌&&◌}
use native.Mathlib.Omega.{arith}
use mips.Prelude.Tests.{◌==◌, Bool-cases}

unfoldable pub all_below : (ℕ → Bool) → ℕ → Bool
all_below p zero = true
all_below p (suc n) = p n && all_below p n

pub all_below-lt : (p : ℕ → Bool) (n k : ℕ) → all_below p n ≡ true → k < n → p k ≡ true
unfolding all_below
all_below-lt p zero k all h = absurd (omega arith)
all_below-lt p (suc n) k all h = elim (Bool-cases (k == n)) [
  | inl same ↦
      let here : n ≡ k = ground (arith, same) in subst (λ m. p m ≡ true) here (ground (arith, all))
  | inr other ↦ all_below-lt p n k (ground (arith, all)) (ground (arith, other))
]
