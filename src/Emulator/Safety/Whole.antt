-- ===== src/Emulator/Safety/Whole.antt =====
-- `Step` is safe, and so is the loop of mips-run.
use mips.Emulator.Run.{Outcome, run, after_step}
use mips.Prelude.{◌≢◌, ℕ, zero, suc, ◌≡◌, arith, Option-cases, some, inl, inr, subst, Bool-cases}
use mips.Isa.{Result, ok, err, panic}
use mips.Memory.Interface.{MemoryOps, MemoryLaws}
use mips.Executable.Image.{Executable, get}
use mips.Emulator.State.{Emulator}
use mips.Emulator.Step.{advance, step, is_done}
use mips.Emulator.Safety.Valid.{IsRunnable, IsValid, SafeAt}
use mips.Emulator.Safety.Rules.{Good, Any}
use mips.Emulator.Safety.Execute.{execute-Safe}

module _ {M : Type 0} (ops : MemoryOps M) (laws : MemoryLaws ops) (exe : Executable) where
  advance-Good : (e : Emulator M) → Good ops laws exe e → Good ops laws exe (advance e)
  unfolding advance
  advance-Good e v = elim (Bool-cases e.jump_next) [
    | inl jumping ↦
        rw (jumping, advance)
          (record {
            size = v.size;
            words = v.words;
            zero = v.zero;
            counter-lt = v.target-lt;
            target-lt = v.target-lt;
            memory_valid = v.memory_valid;
            same_executable = v.same_executable;
          })
    | inr straight ↦
        rw (straight, advance)
          (record {
            size = v.size;
            words = v.words;
            zero = v.zero;
            counter-lt = omega arith;
            target-lt = v.target-lt;
            memory_valid = v.memory_valid;
            same_executable = v.same_executable;
          })
  ]

  module _ (runnable : IsRunnable exe) where
    step-SafeAt : (e : Emulator M) → Good ops laws exe e → SafeAt ops laws exe Any (step ops e)
    unfolding step
    step-SafeAt e v = elim (Option-cases (get e.executable e.program_counter)) [
      | inl nothing ↦ rw (nothing, step) (advance-Good e v, tt)
      | inr (i, found) ↦
          rw (found, step)
            ((execute-Safe ops laws exe i (
                runnable e.program_counter i
                  (subst (λ x. get x e.program_counter ≡ some i) v.same_executable found))).at
              (advance e) (advance-Good e v))
    ]

    after-SafeAt :
        (r : Result (Unit {0}) × Emulator M)
        → SafeAt ops laws exe Any r
        → (r.0 ≢ panic) × Good ops laws exe r.1
    after-SafeAt (ok a, e) s = (λ p. cc, s.0)
    after-SafeAt (err x, e) s = (λ p. cc, s)
    after-SafeAt (panic, e) s = absurd s

    -- On a memory that keeps its laws, and from a well-formed emulator whose executable holds only
    -- runnable instructions, a step does not panic, and the emulator is well formed after it,
    -- whether the step succeeds or fails.
    pub step-IsValid :
        (e : Emulator M)
        → IsValid ops laws exe e
        → ((step ops e).0 ≢ panic) × IsValid ops laws exe (step ops e).1
    step-IsValid e v = after-SafeAt (step ops e) (step-SafeAt e v)

    continue_run :
        (r : Result (Unit {0}) × Emulator M) (rest : Emulator M → Outcome M)
        → SafeAt ops laws exe Any r
        → ((e : Emulator M)
            → Good ops laws exe e
            → ((rest e).0 ≢ some panic) × Good ops laws exe (rest e).1)
        → ((after_step r rest).0 ≢ some panic) × Good ops laws exe (after_step r rest).1
    continue_run (ok a, e) rest s h = h e s.0
    continue_run (err x, e) rest s h = (λ p. cc, s)
    continue_run (panic, e) rest s h = absurd s

    -- On a memory that keeps its laws, and from a well-formed emulator whose executable holds only
    -- runnable instructions, the loop of mips-run does not panic and keeps the emulator well
    -- formed, with any amount of fuel, used up or not.
    pub run-IsValid :
        (fuel : ℕ) (e : Emulator M)
        → IsValid ops laws exe e
        → ((run ops fuel e).0 ≢ some panic) × IsValid ops laws exe (run ops fuel e).1
    unfolding run
    run-IsValid zero e v = (λ p. cc, v)
    run-IsValid (suc fuel) e v = elim (Bool-cases (is_done e)) [
      | inl done ↦ rw done (λ p. cc, v)
      | inr more ↦ rw more (continue_run (step ops e) _ (step-SafeAt e v) (run-IsValid fuel))
    ]
