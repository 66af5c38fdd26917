-- ===== src/Emulator/Branching/Dispatch.antt =====
-- Which handler a branch or a jump comes to.
use mips.Prelude.{
  ◌≡◌, refl, Bool, true, false, [], ◌∷◌, is_one_of, is_one_of-all, Bool-cases, some, inl, inr,
  if◌then◌else◌,
}
use mips.Isa.{Instruction}
use mips.Memory.Interface.{MemoryOps}
use mips.Executable.Image.{get}
use mips.Emulator.State.{Emulator}
use mips.Emulator.Execute.Control.{execute_branch, execute_jump}
use mips.Emulator.Step.{branch_names, jump_names, advance, execute, step}

second :
    {A : Type 0} (a b : Bool) (x y z : A)
    → a ≡ false
    → b ≡ true
    → (if a then x else if b then y else z) ≡ y
second false true x y z p q = refl
second true b x y z p q = absurd (cc)
second false false x y z p q = absurd (cc)

third :
    {A : Type 0} (a b c : Bool) (x y z w : A)
    → a ≡ false
    → b ≡ false
    → c ≡ true
    → (if a then x else if b then y else if c then z else w) ≡ z
third false false true x y z w p q r = refl
third true b c x y z w p q r = absurd (cc)
third false true c x y z w p q r = absurd (cc)
third false false false x y z w p q r = absurd (cc)

module _ {M : Type 0} where
  pub advance-executable : (e : Emulator M) → (advance e).executable ≡ e.executable
  unfolding advance
  advance-executable e = elim (Bool-cases e.jump_next) [
    | inl jumping ↦ rw (jumping, advance) refl
    | inr straight ↦ rw (straight, advance) refl
  ]

  module _ (ops : MemoryOps M) where
    pub execute-branch :
        (i : Instruction) → is_one_of i.name branch_names ≡ true → execute ops i ≡ execute_branch i
    unfolding execute
    execute-branch i named =
        second (is_one_of i.name ("NOP" ∷ [])) (is_one_of i.name branch_names) _ _ _
          (is_one_of-all (λ n. is_one_of n ("NOP" ∷ []) ≡ false) i.name branch_names named
            (refl, (refl, (refl, (refl, (refl, (refl, tt)))))))
          named

    pub execute-jump :
        (i : Instruction) → is_one_of i.name jump_names ≡ true → execute ops i ≡ execute_jump i
    unfolding execute
    execute-jump i named =
        third (is_one_of i.name ("NOP" ∷ [])) (is_one_of i.name branch_names)
          (is_one_of i.name jump_names) _ _ _ _
          (is_one_of-all (λ n. is_one_of n ("NOP" ∷ []) ≡ false) i.name jump_names named
            (refl, (refl, (refl, (refl, tt)))))
          (is_one_of-all (λ n. is_one_of n branch_names ≡ false) i.name jump_names named
            (refl, (refl, (refl, (refl, tt)))))
          named

    pub step-found :
        (e : Emulator M) (i : Instruction)
        → get e.executable e.program_counter ≡ some i
        → step ops e ≡ execute ops i (advance e)
    unfolding step
    step-found e i found = rw (found, step) refl
