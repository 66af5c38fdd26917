-- ===== src/Emulator/Safety/Rules.antt =====
-- One rule of safety for each basic action.
use mips.Prelude.{
  lt→ltb, ℕ, ◌^◌, ◌<◌, ◌≡◌, ◌≢◌, refl, length, Bool, true, false, inl, inr, arith, Bool-cases, ◌==◌,
  if◌then◌else◌, All, All-get_elem?, get_elem?-eq-get_or, get_or-set_self, get_or-set_ne,
  length-set, ◌∙◌,
}
use mips.Isa.{Instruction, Error, Result, ok, err, panic}
use mips.Memory.Interface.{MemoryOps, MemoryLaws}
use mips.Executable.Image.{Executable}
use mips.Emulator.State.{
  continue, Emulator, Exec, ◌>>=◌, pure, raise, current, modify, operand, get_reg, operand_value,
  write_reg, set_reg, instruction_error, checked,
}
use mips.Emulator.Safety.Valid.{IsValid, Safe, SafeAt}

-- no condition on the value
abbrev pub Any : {A : Type 0} → A → Type 0
Any _ = Unit

module _ {M : Type 0} (ops : MemoryOps M) (laws : MemoryLaws ops) (exe : Executable) where
  abbrev pub Good : Emulator M → Type 0
  Good = IsValid ops laws exe

  abbrev pub Runs : {A : Type 0} → (A → Type 0) → Exec M A → Type 0
  Runs = Safe ops laws exe

  continue-SafeAt :
      {A B : Type 0} {Q : A → Type 0} {R : B → Type 0} (r : Result A × Emulator M)
      (f : A → Exec M B)
      → SafeAt ops laws exe Q r
      → ((a : A) → Q a → Runs R (f a))
      → SafeAt ops laws exe R (continue r f)
  continue-SafeAt (ok a, e) f s sf = (sf a s.1).at e s.0
  continue-SafeAt (err x, e) f s sf = s
  continue-SafeAt (panic, e) f s sf = s

  pub bind-Safe :
      {A B : Type 0} {Q : A → Type 0} {R : B → Type 0} {m : Exec M A} {f : A → Exec M B}
      → Runs Q m
      → ((a : A) → Q a → Runs R (f a))
      → Runs R (m >>= f)
  bind-Safe {Q} {R} {m} {f} sm sf = record {
    at = λ e v. continue-SafeAt {Q = Q} {R = R} (m e) f (sm.at e v) sf;
  }

  pub pure-Safe : {A : Type 0} {Q : A → Type 0} (a : A) → Q a → Runs Q (pure a)
  unfolding pure
  pure-Safe a q = record { at = λ e v. (v, q) }

  pub raise-Safe : {A : Type 0} {Q : A → Type 0} (x : Error) → Runs Q (raise x)
  unfolding raise
  raise-Safe x = record { at = λ e v. v }

  pub current-Safe : Runs Good current
  unfolding current
  current-Safe = record { at = λ e v. (v, v) }

  pub modify-Safe :
      (f : Emulator M → Emulator M) → ((e : Emulator M) → Good e → Good (f e)) → Runs Any (modify f)
  unfolding modify
  modify-Safe f keeps = record { at = λ e v. (keeps e v, tt) }

  pub operand-Safe :
      (i : Instruction) (n : ℕ)
      → n < length i.registers
      → All (λ r. r < 32) i.registers
      → Runs (λ r. r < 32) (operand i n)
  unfolding operand
  operand-Safe i n h all =
      let found = get_elem?-eq-get_or i.registers n 0 h in
      record {
        at = λ e v. rw (found, operand) (v, All-get_elem? (λ r. r < 32) i.registers n all found);
      }

  pub get_reg-Safe : (r : ℕ) → r < 32 → Runs (λ v. v < 2 ^ 32) (get_reg r)
  unfolding get_reg
  get_reg-Safe r h = record {
    at = λ e v. rw (get_elem?-eq-get_or e.register_file r 0 (omega arith), get_reg) (v, v.words r);
  }

  pub write_reg-Safe : (r val : ℕ) → r < 32 → r ≢ 0 → val < 2 ^ 32 → Runs Any (write_reg r val)
  unfolding write_reg
  write_reg-Safe r val h nonzero fits = record {
    at = λ e v.
        rw (lt→ltb r (length e.register_file) (omega arith), write_reg)
          (
            record {
              size = length-set e.register_file r val ∙ v.size;
              words = λ j. ground (
                arith,
                v.words j,
                get_or-set_self e.register_file r val 0,
                get_or-set_ne e.register_file r j val 0,
              );
              zero = get_or-set_ne e.register_file r 0 val 0 nonzero ∙ v.zero;
              counter-lt = v.counter-lt;
              target-lt = v.target-lt;
              memory_valid = v.memory_valid;
              same_executable = v.same_executable;
            },
            tt,
          );
  }

  pub set_reg-Safe : (r val : ℕ) → r < 32 → val < 2 ^ 32 → Runs Any (set_reg r val)
  unfolding set_reg
  set_reg-Safe r val h fits = record {
    at = λ e v. elim (Bool-cases (r == 0)) [
      | inl zero ↦ rw (zero, set_reg) (v, tt)
      | inr other ↦ rw (other, set_reg) ((write_reg-Safe r val h (λ p. ground arith) fits).at e v)
    ];
  }

  pub instruction_error-Safe :
      {A : Type 0} {Q : A → Type 0} (x : Error) → Runs Q (instruction_error x)
  unfolding instruction_error
  instruction_error-Safe x = record { at = λ e v. v }

  pub checked-Safe :
      {A : Type 0} {Q : A → Type 0} (r : Result A)
      → r ≢ panic
      → ((a : A) → r ≡ ok a → Q a)
      → Runs Q (checked r)
  unfolding checked instruction_error
  checked-Safe (ok a) h q = record { at = λ e v. (v, q a refl) }
  checked-Safe (err x) h q = record { at = λ e v. v }
  checked-Safe panic h q = absurd (h refl)

  pub operand_value-Safe :
      (i : Instruction) (n : ℕ)
      → n < length i.registers
      → All (λ r. r < 32) i.registers
      → Runs (λ v. v < 2 ^ 32) (operand_value i n)
  unfolding operand_value
  operand_value-Safe i n h all = bind-Safe (operand-Safe i n h all) get_reg-Safe

  pub if-Safe :
      {A : Type 0} {Q : A → Type 0} (b : Bool) {m k : Exec M A}
      → (b ≡ true → Runs Q m)
      → (b ≡ false → Runs Q k)
      → Runs Q (if b then m else k)
  if-Safe true sm sk = sm refl
  if-Safe false sm sk = sk refl

  -- a test of the state, before the actions are run
  pub if-SafeAt :
      {A : Type 0} (Q : A → Type 0) (b : Bool) (x y : Result A × Emulator M)
      → (b ≡ true → SafeAt ops laws exe Q x)
      → (b ≡ false → SafeAt ops laws exe Q y)
      → SafeAt ops laws exe Q (if b then x else y)
  if-SafeAt Q true x y sx sy = sx refl
  if-SafeAt Q false x y sx sy = sy refl
