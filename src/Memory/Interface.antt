-- ===== src/Memory/Interface.antt =====
-- The `Memory` interface: what a client calls, and the laws that an implementation keeps.
use mips.Prelude.{ℕ, ◌<◌, ◌^◌, ◌≡◌, ◌==◌, if◌then◌else◌}

pub record MemoryOps (M : Type 0) : Type 0 where
  pub get : M → ℕ → ℕ
  pub set : M → ℕ → ℕ → M

-- A byte that is set is read back, and no other byte changes.
pub record MemoryLaws {M : Type 0} (ops : MemoryOps M) : Type 1 where
  pub IsValid : M → Type 0
  pub get-lt : (m : M) (p : ℕ) → IsValid m → ops.get m p < 2 ^ 8
  pub set-IsValid : (m : M) (p b : ℕ) → IsValid m → b < 2 ^ 8 → IsValid (ops.set m p b)
  pub get-set :
      (m : M) (p q b : ℕ)
      → IsValid m
      → p < 2 ^ 32
      → q < 2 ^ 32
      → ops.get (ops.set m p b) q ≡ (if p == q then b else ops.get m q)
