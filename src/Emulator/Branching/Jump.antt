-- ===== src/Emulator/Branching/Jump.antt =====
-- Where `J` and `JAL` take the program.
use mips.Prelude.{
  ℕ, ◌^◌, ◌<◌, ◌≡◌, ◌≢◌, refl, ap, ◌∙◌, sym, Bool, true, false, arith, [], ◌∷◌, is_one_of,
  is_one_of-all, some, if◌then◌else◌, bit_or, bit_and, str_eq, ◌||◌,
}
use mips.Isa.{Instruction, Result, ok, err, panic, add32, sub32}
use mips.Memory.Interface.{MemoryOps}
use mips.Executable.Image.{get}
use mips.Coding.Target.{instruction_jump_base}
use mips.Coding.Landing.{instruction_jump_base-lands, pointer_address}
use mips.Emulator.State.{Emulator, checked, current, modify, instruction_error}
use mips.Emulator.Execute.Control.{jump_to_pointer, execute_jump}
use mips.Emulator.Step.{jump_names, advance, step}
use mips.Emulator.Flow.Execute.{link_pointer-Keeps}
use mips.Emulator.Flow.Whole.{step-flow}
use mips.Emulator.Branching.Dispatch.{advance-executable, execute-jump, step-found}

module _ {M : Type 0} where
  abbrev pending : Emulator M → Bool × ℕ
  pending e = (e.jump_next, e.jump_target)

  -- what `J` and `JAL` do with a base that is found or not
  jump_to_pointer-pending :
      (i : Instruction) (e : Emulator M) (base : ℕ)
      → instruction_jump_base i (sub32 e.program_counter 4) e.executable.symbols ≡ ok base
      → pending (jump_to_pointer i e).1 ≡ (true, bit_or (bit_and e.program_counter 0xf0000000) base)
  unfolding jump_to_pointer current modify checked
  jump_to_pointer-pending i e base found =
      rw found ((link_pointer-Keeps pending (λ _ _. refl) i).at _)

  jump_to_pointer-error :
      (i : Instruction) (e : Emulator M) (r : Result ℕ)
      → ((n : ℕ) → r ≢ ok n)
      → instruction_jump_base i (sub32 e.program_counter 4) e.executable.symbols ≡ r
      → (jump_to_pointer i e).0 ≢ ok tt
  unfolding jump_to_pointer current modify checked instruction_error
  jump_to_pointer-error i e (ok n) fails failed = absurd (fails n refl)
  jump_to_pointer-error i e (err x) fails failed = rw failed (λ p. cc)
  jump_to_pointer-error i e panic fails failed = rw failed (λ p. cc)

  jump_to_pointer-lands :
      (i : Instruction) (e : Emulator M) (addr : ℕ)
      → pointer_address i e.executable.symbols ≡ some addr
      → addr < 2 ^ 32
      → e.program_counter < 2 ^ 32
      → (jump_to_pointer i e).0 ≡ ok tt
      → pending (jump_to_pointer i e).1 ≡ (true, addr)
  jump_to_pointer-lands i e addr named h hp fine =
      go (instruction_jump_base i (sub32 e.program_counter 4) e.executable.symbols) refl
    where
      back : add32 (sub32 e.program_counter 4) 4 ≡ e.program_counter
      back = omega arith

      go :
          (r : Result ℕ)
          → instruction_jump_base i (sub32 e.program_counter 4) e.executable.symbols ≡ r
          → pending (jump_to_pointer i e).1 ≡ (true, addr)
      go (ok base) p =
          jump_to_pointer-pending i e base p
          ∙ ap (λ t. (true, t))
              (ap (λ pc. bit_or (bit_and pc 0xf0000000) base) (sym back)
                ∙ instruction_jump_base-lands i _ e.executable.symbols base addr named h p)
      go (err x) p = absurd (jump_to_pointer-error i e (err x) (λ n q. cc) p fine)
      go panic p = absurd (jump_to_pointer-error i e panic (λ n q. cc) p fine)

  module _ (ops : MemoryOps M) where
    pointer-jump :
        (i : Instruction)
        → is_one_of i.name ("J" ∷ "JAL" ∷ []) ≡ true
        → (is_one_of i.name jump_names ≡ true) × ((str_eq i.name "J" || str_eq i.name "JAL") ≡ true)
    pointer-jump i named =
        is_one_of-all
          (λ n. (is_one_of n jump_names ≡ true) × ((str_eq n "J" || str_eq n "JAL") ≡ true)) i.name
          ("J" ∷ "JAL" ∷ []) named ((refl, refl), ((refl, refl), tt))

    step-jump :
        (e : Emulator M) (i : Instruction)
        → get e.executable e.program_counter ≡ some i
        → is_one_of i.name ("J" ∷ "JAL" ∷ []) ≡ true
        → e.jump_next ≡ false
        → step ops e ≡ jump_to_pointer i (advance e)
    unfolding execute_jump advance
    step-jump e i found named idle =
        step-found ops e i found
        ∙ ap (λ m. m (advance e)) (execute-jump ops i (pointer-jump i named).0)
        ∙ rw (idle, advance) (rw ((pointer-jump i named).1, execute_jump) refl)

    -- `J` and `JAL` outside a delay slot, with a label or a constant address: if the step succeeds,
    -- the program counter is at that very address, all its 32 bits, after the next step.
    pub jump-lands :
        (e : Emulator M) (i : Instruction) (addr : ℕ)
        → get e.executable e.program_counter ≡ some i
        → is_one_of i.name ("J" ∷ "JAL" ∷ []) ≡ true
        → pointer_address i e.executable.symbols ≡ some addr
        → addr < 2 ^ 32
        → e.jump_next ≡ false
        → (step ops e).0 ≡ ok tt
        → (step ops (step ops e).1).1.program_counter ≡ addr
    unfolding advance
    jump-lands e i addr found named meant h idle fine =
        (step-flow ops (step ops e).1).0
        ∙ ap (λ p. if p.0 then p.1 else add32 (step ops e).1.program_counter 4) landed
      where
        same : step ops e ≡ jump_to_pointer i (advance e)
        same = step-jump e i found named idle

        counter : (advance e).program_counter ≡ add32 e.program_counter 4
        counter = unfold advance in rw (idle, advance) refl

        landed : pending (step ops e).1 ≡ (true, addr)
        landed =
            ap (λ r. pending r.1) same
            ∙ jump_to_pointer-lands i (advance e) addr (rw (advance-executable e) meant) h
                (rw counter (omega arith)) (sym (ap (λ r. r.0) same) ∙ fine)
