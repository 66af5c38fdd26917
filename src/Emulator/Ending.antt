-- ===== src/Emulator/Ending.antt =====
-- Programs that end, and where they end.
use mips.Prelude.{
  ℕ, zero, suc, ◌+◌, ◌*◌, ◌^◌, ◌<◌, ◌≤◌, ◌≡◌, ◌≢◌, refl, ap, ◌∙◌, sym, subst, false, true, arith,
  is_one_of, Option-cases, Bool-cases, none, some, inl, inr,
}
use mips.Isa.{Instruction, Result, ok, err, panic}
use mips.Memory.Interface.{MemoryOps}
use mips.Executable.Image.{Executable, get, end}
use mips.Executable.Lookup.{get-end}
use mips.Emulator.State.{Emulator}
use mips.Emulator.Step.{branch_names, jump_names, is_done, advance, step}
use mips.Emulator.Run.{Outcome, after_step, run}
use mips.Emulator.Flow.Whole.{step-flow, execute-straight}

-- an executable without branches and jumps
abbrev pub IsStraight : Executable → Type 0
IsStraight exe =
    (addr : ℕ) (i : Instruction)
    → get exe addr ≡ some i
    → (is_one_of i.name branch_names ≡ false) × (is_one_of i.name jump_names ≡ false)

module _ {M : Type 0} (ops : MemoryOps M) where
  after_step-ended :
      (x : Result (Unit {0}) × Emulator M) (f : Emulator M → Outcome M) (e' : Emulator M)
      → after_step x f ≡ (some (ok tt), e')
      → f x.1 ≡ (some (ok tt), e')
  after_step-ended (ok _, e) f e' h = h
  after_step-ended (err x, e) f e' h = let p = ap (λ o. o.0) h in absurd (cc)
  after_step-ended (panic, e) f e' h = let p = ap (λ o. o.0) h in absurd (cc)

  is_done_lem :
      (e : Emulator M)
      → is_done e ≡ true
      → (e.jump_next ≡ false) × (end e.executable ≤ e.program_counter)
  unfolding is_done
  is_done_lem e h = (ground arith, ground arith)

  -- If the loop of mips-run ends without an error, after any number of steps, then no jump is
  -- pending, whose delay slot would still have to run; the program counter is at the end of the
  -- executable or past it, and `Get` finds no instruction there. The executable is the one that the
  -- loop began with.
  pub run-ended :
      (fuel : ℕ) (e e' : Emulator M)
      → run ops fuel e ≡ (some (ok tt), e')
      → (e'.jump_next ≡ false)
        × (end e.executable ≤ e'.program_counter)
        × (get e.executable e'.program_counter ≡ none)
        × (e'.executable ≡ e.executable)
  unfolding run
  run-ended zero e e' h = let none_some = ap (λ o. o.0) h in absurd (cc)
  run-ended (suc fuel) e e' h = elim (Bool-cases (is_done e)) [
    | inl done ↦
        let same : e ≡ e' = ap (λ o. o.1) (rw done at h) in
        let (idle, past) = is_done_lem e done in
        subst
          (λ (x : Emulator M).
            (x.jump_next ≡ false)
            × (end e.executable ≤ x.program_counter)
            × (get e.executable x.program_counter ≡ none)
            × (x.executable ≡ e.executable))
          same (idle, past, get-end e.executable e.program_counter past, refl)
    | inr going ↦
        let later =
          run-ended fuel (step ops e).1 e' (after_step-ended (step ops e) _ e' (rw going at h)) in
        let kept : (step ops e).1.executable ≡ e.executable = (step-flow ops e).2 in
        let (idle, past, nothing, same) = later in
        (
          idle,
          subst (λ exe. end exe ≤ e'.program_counter) kept past,
          subst (λ exe. get exe e'.program_counter ≡ none) kept nothing,
          same ∙ kept,
        )
  ]

  step-straight :
      (e : Emulator M)
      → IsStraight e.executable
      → e.jump_next ≡ false
      → (step ops e).1.jump_next ≡ false
  unfolding step advance
  step-straight e straight idle = elim (Option-cases (get e.executable e.program_counter)) [
    | inl nothing ↦ rw (nothing, step) (rw (idle, advance) refl)
    | inr (i, found) ↦
        let (b, j) = straight e.program_counter i found in
        let still : (advance e).jump_next ≡ false = rw (idle, advance) refl in
        rw (found, step) (execute-straight ops i (advance e) b j ∙ still)
  ]

  after_step-ends :
      (x : Result (Unit {0}) × Emulator M) (f : Emulator M → Outcome M)
      → (f x.1).0 ≢ none
      → (after_step x f).0 ≢ none
  after_step-ends (ok _, e) f h = h
  after_step-ends (err x, e) f h = λ p. cc
  after_step-ends (panic, e) f h = λ p. cc

  running :
      (e : Emulator M)
      → e.jump_next ≡ false
      → is_done e ≡ false
      → e.program_counter < end e.executable
  unfolding is_done
  running e idle more = ground arith

  -- A program without branches and jumps ends: with one step for each word between the program
  -- counter and the end of the executable, the loop of mips-run does not run out of fuel. The end
  -- is not at the very top of the address space, and no jump is pending.
  pub run-ends :
      (n : ℕ) (e : Emulator M)
      → IsStraight e.executable
      → e.jump_next ≡ false
      → end e.executable + 4 ≤ 2 ^ 32
      → end e.executable ≤ e.program_counter + 4 * n
      → (run ops (suc n) e).0 ≢ none
  unfolding run
  run-ends zero e straight idle top near = elim (Bool-cases (is_done e)) [
    | inl done ↦ rw done (λ p. cc)
    | inr more ↦ absurd (omega (arith, running e idle more, near))
  ]
  run-ends (suc n) e straight idle top near = elim (Bool-cases (is_done e)) [
    | inl done ↦ rw done (λ p. cc)
    | inr more ↦ rw more (
        after_step-ends (step ops e) _ (
          run-ends n (step ops e).1 (subst IsStraight (sym same) straight)
            (step-straight e straight idle) (rw same top)
            (rw (same, moved (running e idle more)) (omega arith))))
  ]
    where
      same : (step ops e).1.executable ≡ e.executable
      same = (step-flow ops e).2

      moved :
          e.program_counter < end e.executable
          → (step ops e).1.program_counter ≡ e.program_counter + 4
      moved inside = (step-flow ops e).0 ∙ rw idle (omega arith)
