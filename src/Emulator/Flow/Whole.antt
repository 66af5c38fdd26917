-- ===== src/Emulator/Flow/Whole.antt =====
-- `Step` and the flow of control.
use mips.Prelude.{
  ℕ, ◌≡◌, refl, ap, ◌∙◌, Bool, true, false, Option-cases, Bool-cases, inl, inr, List, if◌then◌else◌,
  is_one_of, [], ◌∷◌, arith, ◌&&◌,
}
use mips.Isa.{Instruction, add32}
use mips.Memory.Interface.{MemoryOps}
use mips.Executable.Image.{Executable, get}
use mips.Emulator.State.{Emulator, Exec, raise}
use mips.Emulator.Execute.Control.{execute_branch, execute_jump}
use mips.Emulator.Step.{
  branch_names, jump_names, memory_names, register_arithmetic_names, immediate_arithmetic_names,
  set_less_than_names, constant_shift_names, register_shift_names, conditional_move_names, advance,
  execute, step,
}
use mips.Emulator.Flow.Keeps.{Keeps-pure, Keeps-raise, Keeps-if}
use mips.Emulator.Flow.Execute.{
  execute_register_arithmetic-Keeps, execute_immediate_arithmetic-Keeps,
  execute_load_upper_immediate-Keeps, execute_set_less_than-Keeps, execute_constant_shift-Keeps,
  execute_register_shift-Keeps, execute_conditional_move-Keeps, execute_memory-Keeps,
  execute_branch-Keeps, execute_jump-Keeps,
}

module _ {M V : Type 0} (ops : MemoryOps M) (view : Emulator M → V)
    (registers : (e : Emulator M) (rs : List ℕ) → view (record e { register_file = rs }) ≡ view e)
    (memory : (e : Emulator M) (m : M) → view (record e { memory = m }) ≡ view e) where
  choice-at :
      (b : Bool) (m k : Exec M (Unit {0})) (e : Emulator M)
      → (b ≡ true → view (m e).1 ≡ view e)
      → view (k e).1 ≡ view e
      → view ((if b then m else k) e).1 ≡ view e
  choice-at true m k e hm hk = hm refl
  choice-at false m k e hm hk = hk

  -- The instructions that are no branches or jumps change registers and memory only.
  execute-at :
      (i : Instruction) (e : Emulator M)
      → (is_one_of i.name branch_names ≡ true → view (execute_branch i e).1 ≡ view e)
      → (is_one_of i.name jump_names ≡ true → view (execute_jump i e).1 ≡ view e)
      → view (execute ops i e).1 ≡ view e
  unfolding execute
  execute-at i e branch jump =
      choice-at (is_one_of i.name ("NOP" ∷ [])) _ _ e (λ _. (Keeps-pure view tt).at e)
        (choice-at (is_one_of i.name branch_names) _ _ e branch (
          choice-at (is_one_of i.name jump_names) _ _ e jump (
            (Keeps-if view (is_one_of i.name memory_names)
                (execute_memory-Keeps view registers ops memory i)
                (Keeps-if view (is_one_of i.name register_arithmetic_names)
                  (execute_register_arithmetic-Keeps view registers i)
                  (Keeps-if view (is_one_of i.name immediate_arithmetic_names)
                    (execute_immediate_arithmetic-Keeps view registers i)
                    (Keeps-if view (is_one_of i.name ("LUI" ∷ []))
                      (execute_load_upper_immediate-Keeps view registers i)
                      (Keeps-if view (is_one_of i.name set_less_than_names)
                        (execute_set_less_than-Keeps view registers i)
                        (Keeps-if view (is_one_of i.name constant_shift_names)
                          (execute_constant_shift-Keeps view registers i)
                          (Keeps-if view (is_one_of i.name register_shift_names)
                            (execute_register_shift-Keeps view registers i)
                            (Keeps-if view (is_one_of i.name conditional_move_names)
                              (execute_conditional_move-Keeps view registers i)
                              (Keeps-raise view _))))))))).at
              e)))

module _ {M : Type 0} where
  -- the parts of the emulator that only `Step` itself changes
  abbrev place : Emulator M → ℕ × Bool × Executable × Bool × Bool
  place e = (e.program_counter, e.delay_slot, e.executable, e.little_endian, e.force_mem_alignment)

  abbrev pending : Emulator M → Bool × ℕ
  pending e = (e.jump_next, e.jump_target)

  module _ (ops : MemoryOps M) where
    execute-place : (i : Instruction) (e : Emulator M) → place (execute ops i e).1 ≡ place e
    execute-place i e =
        execute-at ops place (λ _ _. refl) (λ _ _. refl) i e
          (λ _. (execute_branch-Keeps place (λ _ _. refl) (λ _ _ _. refl) i).at e)
          (λ _. (execute_jump-Keeps place (λ _ _. refl) (λ _ _ _. refl) i).at e)

    -- an instruction that is no branch or jump
    pub execute-straight :
        (i : Instruction) (e : Emulator M)
        → is_one_of i.name branch_names ≡ false
        → is_one_of i.name jump_names ≡ false
        → (execute ops i e).1.jump_next ≡ e.jump_next
    execute-straight i e no_branch no_jump =
        ap (λ p. p.0)
          (execute-at ops pending (λ _ _. refl) (λ _ _. refl) i e (λ h. absurd (cc))
            (λ h. absurd (cc)))

    -- in a delay slot
    execute-pending :
        (i : Instruction) (e : Emulator M)
        → e.delay_slot ≡ true
        → pending (execute ops i e).1 ≡ pending e
    execute-pending i e slot =
        execute-at ops pending (λ _ _. refl) (λ _ _. refl) i e
          (λ _. unfold execute_branch raise in rw slot refl)
          (λ _. unfold execute_jump raise in rw slot refl)

    step-place : (e : Emulator M) → place (step ops e).1 ≡ place (advance e)
    unfolding step
    step-place e = elim (Option-cases (get e.executable e.program_counter)) [
      | inl nothing ↦ rw (nothing, step) refl
      | inr (i, found) ↦ rw (found, step) (execute-place i (advance e))
    ]

    advance-place :
        (e : Emulator M)
        → place (advance e) ≡ (
          if e.jump_next then e.jump_target else add32 e.program_counter 4,
          e.jump_next,
          e.executable,
          e.little_endian,
          e.force_mem_alignment,
        )
    unfolding advance
    advance-place e = elim (Bool-cases e.jump_next) [
      | inl jumping ↦ rw (jumping, advance) refl
      | inr straight ↦ rw (straight, advance) refl
    ]

    step-pending :
        (e : Emulator M)
        → (advance e).delay_slot ≡ true
        → pending (step ops e).1 ≡ pending (advance e)
    unfolding step
    step-pending e slot = elim (Option-cases (get e.executable e.program_counter)) [
      | inl nothing ↦ rw (nothing, step) refl
      | inr (i, found) ↦ rw (found, step) (execute-pending i (advance e) slot)
    ]

    step-nested : (e : Emulator M) → ((step ops e).1.jump_next && e.jump_next) ≡ false
    step-nested e = elim (Bool-cases e.jump_next) [
      | inl jumping ↦
          let entered : (advance e).delay_slot ≡ true =
            unfold advance in rw (jumping, advance) refl in
          let cleared : (advance e).jump_next ≡ false =
            unfold advance in rw (jumping, advance) refl in
          let kept = ap (λ p. p.0) (step-pending e entered) ∙ cleared in ground arith
      | inr straight ↦ ground arith
    ]

    -- A step moves the program counter to the pending target if a jump is pending, and else four
    -- bytes on; it is in a delay slot after it exactly if a jump was pending. No instruction changes
    -- this, nor the executable and the settings, whether the step succeeds, fails or panics. A jump
    -- that is pending before the step is not pending after it, and none has taken its place.
    pub step-flow :
        (e : Emulator M)
        → ((step ops e).1.program_counter
            ≡ (if e.jump_next then e.jump_target else add32 e.program_counter 4))
          × ((step ops e).1.delay_slot ≡ e.jump_next)
          × ((step ops e).1.executable ≡ e.executable)
          × ((step ops e).1.little_endian ≡ e.little_endian)
          × ((step ops e).1.force_mem_alignment ≡ e.force_mem_alignment)
          × (((step ops e).1.jump_next && e.jump_next) ≡ false)
    step-flow e =
        let same = step-place e ∙ advance-place e in
        (
          ap (λ p. p.0) same,
          ap (λ p. p.1) same,
          ap (λ p. p.2) same,
          ap (λ p. p.3) same,
          ap (λ p. p.4) same,
          step-nested e,
        )
