-- ===== src/Emulator/Branching/Branch.antt =====
-- Where a branch takes the program.
use mips.Prelude.{
  ℕ, ◌%◌, ◌^◌, ◌<◌, ◌≡◌, ◌≢◌, refl, ap, ◌∙◌, sym, true, false, arith, is_one_of, some, lookup_str,
}
use mips.Isa.{Instruction, Result, ok, err, panic, add32, sub32, int32}
use mips.Memory.Interface.{MemoryOps}
use mips.Executable.Image.{get}
use mips.Coding.Target.{SymbolTable, symbol_offset, instruction_branch_offset}
use mips.Coding.Landing.{symbol_offset-lands}
use mips.Emulator.State.{Emulator, checked, current, modify, instruction_error}
use mips.Emulator.Execute.Control.{branch_from, execute_branch}
use mips.Emulator.Step.{branch_names, advance, step}
use mips.Emulator.Flow.Keeps.{Keeps-bind, Keeps-operand_value}
use mips.Emulator.Flow.Execute.{decide_branch-Keeps}
use mips.Emulator.Flow.Whole.{step-flow}
use mips.Emulator.Branching.Dispatch.{advance-executable, execute-branch, step-found}

branch_offset-symbol :
    (i : Instruction) (inst_addr : ℕ) (symbols : SymbolTable) (addr : ℕ)
    → i.code_pointer.absolute ≡ false
    → i.code_pointer.is_symbol ≡ true
    → lookup_str i.code_pointer.symbol symbols ≡ some addr
    → instruction_branch_offset i inst_addr symbols ≡ symbol_offset addr inst_addr
unfolding instruction_branch_offset
branch_offset-symbol i inst_addr symbols addr relative symbolic placed =
    rw (relative, instruction_branch_offset)
      (rw (symbolic, instruction_branch_offset) (rw (placed, instruction_branch_offset) refl))

module _ {M : Type 0} where
  abbrev target : Emulator M → ℕ
  target e = e.jump_target

  branch_from-target :
      (i : Instruction) (e : Emulator M) (offset : ℕ)
      → instruction_branch_offset i (sub32 e.program_counter 4) e.executable.symbols ≡ ok offset
      → (branch_from i e).1.jump_target ≡ add32 e.program_counter offset
  unfolding branch_from current modify checked
  branch_from-target i e offset found = rw found (
      (Keeps-bind target (Keeps-operand_value target i 0)
          (λ v. decide_branch-Keeps target (λ _ _. refl) (λ _ _. refl) i (int32 v))).at
        _)

  branch_from-error :
      (i : Instruction) (e : Emulator M) (r : Result ℕ)
      → ((n : ℕ) → r ≢ ok n)
      → instruction_branch_offset i (sub32 e.program_counter 4) e.executable.symbols ≡ r
      → (branch_from i e).1.jump_next ≡ e.jump_next
  unfolding branch_from current modify checked instruction_error
  branch_from-error i e (ok n) fails failed = absurd (fails n refl)
  branch_from-error i e (err x) fails failed = rw failed refl
  branch_from-error i e panic fails failed = rw failed refl

  -- A branch whose label is found leads to it, if it is taken at all.
  branch_from-lands :
      (i : Instruction) (e : Emulator M) (addr : ℕ)
      → instruction_branch_offset i (sub32 e.program_counter 4) e.executable.symbols
        ≡ symbol_offset addr (sub32 e.program_counter 4)
      → addr < 2 ^ 32
      → addr % 4 ≡ 0
      → e.program_counter < 2 ^ 32
      → e.program_counter % 4 ≡ 0
      → e.jump_next ≡ false
      → (branch_from i e).1.jump_next ≡ true
      → (branch_from i e).1.jump_target ≡ addr
  branch_from-lands i e addr same h aligned hp aligned_p idle taken =
      go (symbol_offset addr (sub32 e.program_counter 4)) refl
    where
      go :
          (r : Result ℕ)
          → symbol_offset addr (sub32 e.program_counter 4) ≡ r
          → (branch_from i e).1.jump_target ≡ addr
      go (ok offset) p =
          branch_from-target i e offset (same ∙ p)
          ∙ ap (λ pc. add32 pc offset) back
          ∙ symbol_offset-lands addr (sub32 e.program_counter 4) offset h aligned (omega arith) p
        where
          back : e.program_counter ≡ add32 (sub32 e.program_counter 4) 4
          back = omega arith
      go (err x) p = let still = branch_from-error i e (err x) (λ n q. cc) (same ∙ p) in absurd (cc)
      go panic p = let still = branch_from-error i e panic (λ n q. cc) (same ∙ p) in absurd (cc)

  module _ (ops : MemoryOps M) where
    step-branch :
        (e : Emulator M) (i : Instruction)
        → get e.executable e.program_counter ≡ some i
        → is_one_of i.name branch_names ≡ true
        → e.jump_next ≡ false
        → step ops e ≡ branch_from i (advance e)
    unfolding execute_branch advance
    step-branch e i found named idle =
        step-found ops e i found
        ∙ ap (λ m. m (advance e)) (execute-branch ops i named)
        ∙ rw (idle, advance) refl

    -- A branch to a label, executed outside a delay slot, leads to the label: if the step takes the
    -- branch, the program counter is at the label's address after the next step, which is the delay
    -- slot's. The label's address and the branch's are multiples of four.
    pub branch-lands :
        (e : Emulator M) (i : Instruction) (addr : ℕ)
        → get e.executable e.program_counter ≡ some i
        → is_one_of i.name branch_names ≡ true
        → i.code_pointer.absolute ≡ false
        → i.code_pointer.is_symbol ≡ true
        → lookup_str i.code_pointer.symbol e.executable.symbols ≡ some addr
        → addr < 2 ^ 32
        → addr % 4 ≡ 0
        → e.program_counter % 4 ≡ 0
        → e.jump_next ≡ false
        → (step ops e).1.jump_next ≡ true
        → (step ops (step ops e).1).1.program_counter ≡ addr
    unfolding advance
    branch-lands e i addr found named relative symbolic placed h aligned aligned_p idle taken =
        (step-flow ops (step ops e).1).0
        ∙ rw taken refl
        ∙ ap (λ r. r.1.jump_target) same
        ∙ branch_from-lands i (advance e) addr
            (branch_offset-symbol i _ _ addr relative symbolic (rw (advance-executable e) placed)) h
            aligned (rw counter (omega arith)) (rw counter (omega arith)) (rw (idle, advance) refl)
            (sym (ap (λ r. r.1.jump_next) same) ∙ taken)
      where
        same : step ops e ≡ branch_from i (advance e)
        same = step-branch e i found named idle

        counter : (advance e).program_counter ≡ add32 e.program_counter 4
        counter = unfold advance in rw (idle, advance) refl
