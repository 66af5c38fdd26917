-- ===== src/Emulator/State.antt =====
-- The `Emulator` struct, and actions on it. An action returns a value, an error or a panic, and the
-- state as it is then: what was changed before an error stays changed.
use mips.Prelude.{ℕ, List, none, some, Bool, ◌==◌, ltb, if◌then◌else◌, length, get_elem?, set}
use mips.Isa.{Instruction, Error, Result, ok, err, panic, at, sub32}
use mips.Executable.Image.{Executable}

pub record Emulator (M : Type 0) : Type 0 where
  pub register_file : List ℕ
  pub memory : M
  pub executable : Executable
  pub program_counter : ℕ
  pub little_endian : Bool
  pub force_mem_alignment : Bool
  pub delay_slot : Bool
  pub jump_next : Bool
  pub jump_target : ℕ

abbrev pub Exec : Type 0 → Type 0 → Type 0
Exec M A = Emulator M → Result A × Emulator M

module _ {M : Type 0} where
  abbrev pub continue :
      {A B : Type 0} → Result A × Emulator M → (A → Exec M B) → Result B × Emulator M
  continue (ok a, e) f = f a e
  continue (err x, e) f = (err x, e)
  continue (panic, e) f = (panic, e)

  infixl 5 ◌>>=◌ ◌>>◌
  abbrev pub ◌>>=◌ : {A B : Type 0} → Exec M A → (A → Exec M B) → Exec M B
  ◌>>=◌ m f e = continue (m e) f

  abbrev pub ◌>>◌ : {B : Type 0} → Exec M (Unit {0}) → Exec M B → Exec M B
  m >> k = m >>= λ _. k

  unfoldable pub pure : {A : Type 0} → A → Exec M A
  pure a e = (ok a, e)

  unfoldable pub raise : {A : Type 0} → Error → Exec M A
  raise x e = (err x, e)

  -- the emulator as it is
  unfoldable pub current : Exec M (Emulator M)
  current e = (ok e, e)

  unfoldable pub modify : (Emulator M → Emulator M) → Exec M (Unit {0})
  modify f e = (ok tt, f e)

  -- `inst.Registers[i]`
  unfoldable pub operand : Instruction → ℕ → Exec M ℕ
  operand inst i e = elim (get_elem? inst.registers i) [ none ↦ (panic, e) | some r ↦ (ok r, e) ]

  -- `e.RegisterFile[r]`
  unfoldable pub get_reg : ℕ → Exec M ℕ
  get_reg r e = elim (get_elem? e.register_file r) [ none ↦ (panic, e) | some v ↦ (ok v, e) ]

  -- `e.RegisterFile[inst.Registers[i]]`
  unfoldable pub operand_value : Instruction → ℕ → Exec M ℕ
  unfolding operand get_reg
  operand_value inst i = do r ← operand inst i; get_reg r

  -- `e.RegisterFile[r] = val`
  unfoldable pub write_reg : ℕ → ℕ → Exec M (Unit {0})
  write_reg r val e =
      if ltb r (length e.register_file)
      then (ok tt, record e { register_file = set e.register_file r val })
      else (panic, e)

  -- `setReg`
  unfoldable pub set_reg : ℕ → ℕ → Exec M (Unit {0})
  unfolding write_reg
  set_reg r val e = if r == 0 then (ok tt, e) else write_reg r val e

  -- `instructionError` names the address before the program counter.
  unfoldable pub instruction_error : {A : Type 0} → Error → Exec M A
  instruction_error msg e = (err (at (sub32 e.program_counter 4) msg), e)

  -- a call whose error is passed to `instructionError`
  unfoldable pub checked : {A : Type 0} → Result A → Exec M A
  unfolding instruction_error
  checked (ok a) e = (ok a, e)
  checked (err x) e = instruction_error x e
  checked panic e = (panic, e)
