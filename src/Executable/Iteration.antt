-- ===== src/Executable/Iteration.antt =====
-- Go iterates over a map in any order: what `Get`, `End` and `addressInUse` answer does not depend
-- on it.
use mips.Prelude.{ℕ, List, [], ◌∷◌}
use mips.Isa.{Instruction}
use mips.Executable.Image.{Executable, Segments}

-- another order of the same entries
pub data Reordered : Segments → Segments → Type 0 where
  nil : Reordered [] []
  cons :
      (x : ℕ × List Instruction) {xs ys : Segments} → Reordered xs ys → Reordered (x ∷ xs) (x ∷ ys)
  swap : (x y : ℕ × List Instruction) (l : Segments) → Reordered (x ∷ y ∷ l) (y ∷ x ∷ l)
  trans : {xs ys zs : Segments} → Reordered xs ys → Reordered ys zs → Reordered xs zs
