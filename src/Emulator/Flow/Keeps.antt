-- ===== src/Emulator/Flow/Keeps.antt =====
-- What of the emulator an action leaves as it is: one rule for each basic action.
use mips.Prelude.{
  ℕ, ◌≡◌, refl, ◌∙◌, Bool, true, false, ltb, ◌==◌, if◌then◌else◌, length, List, get_elem?,
  Option-cases, inl, inr,
}
use mips.Isa.{Instruction, Error, Result, ok, err, panic}
use mips.Emulator.State.{
  continue, Emulator, Exec, ◌>>=◌, pure, raise, current, modify, operand, get_reg, operand_value,
  write_reg, set_reg, instruction_error, checked,
}

module _ {M V : Type 0} (view : Emulator M → V) where
  -- `view` is the same after `m`, whether it returns a value, an error or panics.
  pub record Keeps {A : Type 0} (m : Exec M A) : Type 0 where
    pub at : (e : Emulator M) → view (m e).1 ≡ view e

  continue-at :
      {A B : Type 0} (r : Result A × Emulator M) (f : A → Exec M B)
      → ((a : A) → Keeps (f a))
      → view (continue r f).1 ≡ view r.1
  continue-at (ok a, e) f kf = (kf a).at e
  continue-at (err x, e) f kf = refl
  continue-at (panic, e) f kf = refl

  pub Keeps-bind :
      {A B : Type 0} {m : Exec M A} {f : A → Exec M B}
      → Keeps m
      → ((a : A) → Keeps (f a))
      → Keeps (m >>= f)
  Keeps-bind {m} {f} km kf = record { at = λ e. continue-at (m e) f kf ∙ km.at e }

  pub Keeps-pure : {A : Type 0} (a : A) → Keeps (pure a)
  unfolding pure
  Keeps-pure a = record { at = λ e. refl }

  pub Keeps-raise : {A : Type 0} (x : Error) → Keeps (raise {A = A} x)
  unfolding raise
  Keeps-raise x = record { at = λ e. refl }

  pub Keeps-current : Keeps current
  unfolding current
  Keeps-current = record { at = λ e. refl }

  pub Keeps-modify :
      (f : Emulator M → Emulator M) → ((e : Emulator M) → view (f e) ≡ view e) → Keeps (modify f)
  unfolding modify
  Keeps-modify f h = record { at = h }

  pub Keeps-operand : (i : Instruction) (n : ℕ) → Keeps (operand i n)
  unfolding operand
  Keeps-operand i n = record {
    at = λ e. elim (Option-cases (get_elem? i.registers n)) [
      | inl absent ↦ rw (absent, operand) refl
      | inr (r, found) ↦ rw (found, operand) refl
    ];
  }

  pub Keeps-get_reg : (r : ℕ) → Keeps (get_reg r)
  unfolding get_reg
  Keeps-get_reg r = record {
    at = λ e. elim (Option-cases (get_elem? e.register_file r)) [
      | inl absent ↦ rw (absent, get_reg) refl
      | inr (v, found) ↦ rw (found, get_reg) refl
    ];
  }

  pub Keeps-operand_value : (i : Instruction) (n : ℕ) → Keeps (operand_value i n)
  unfolding operand_value
  Keeps-operand_value i n = Keeps-bind (Keeps-operand i n) Keeps-get_reg

  pub Keeps-instruction_error : {A : Type 0} (x : Error) → Keeps (instruction_error {A = A} x)
  unfolding instruction_error
  Keeps-instruction_error x = record { at = λ e. refl }

  pub Keeps-checked : {A : Type 0} (r : Result A) → Keeps (checked r)
  unfolding checked instruction_error
  Keeps-checked (ok a) = record { at = λ e. refl }
  Keeps-checked (err x) = record { at = λ e. refl }
  Keeps-checked panic = record { at = λ e. refl }

  pub Keeps-if :
      {A : Type 0} (b : Bool) {m k : Exec M A} → Keeps m → Keeps k → Keeps (if b then m else k)
  Keeps-if true km kk = km
  Keeps-if false km kk = kk

  -- a test of the state, before the actions are run
  pub if-at :
      {A : Type 0} (b : Bool) (x y : Result A × Emulator M) (v : V)
      → view x.1 ≡ v
      → view y.1 ≡ v
      → view (if b then x else y).1 ≡ v
  if-at true x y v hx hy = hx
  if-at false x y v hx hy = hy

  pub Keeps-set_reg :
      (r val : ℕ)
      → ((e : Emulator M) (rs : List ℕ) → view (record e { register_file = rs }) ≡ view e)
      → Keeps (set_reg r val)
  unfolding set_reg write_reg
  Keeps-set_reg r val h = record {
    at = λ e. if-at (r == 0) _ _ _ refl (if-at (ltb r (length e.register_file)) _ _ _ (h e _) refl);
  }

  pub Keeps-write_reg :
      (r val : ℕ)
      → ((e : Emulator M) (rs : List ℕ) → view (record e { register_file = rs }) ≡ view e)
      → Keeps (write_reg r val)
  unfolding write_reg
  Keeps-write_reg r val h = record {
    at = λ e. if-at (ltb r (length e.register_file)) _ _ _ (h e _) refl;
  }
