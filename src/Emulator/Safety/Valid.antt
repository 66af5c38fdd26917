-- ===== src/Emulator/Safety/Valid.antt =====
-- A well-formed emulator, and what it means for an action to be safe.
use mips.Prelude.{ℕ, ◌^◌, ◌<◌, ◌≡◌, length, get_or, some}
use mips.Isa.{Instruction, Result, ok, err, panic}
use mips.Memory.Interface.{MemoryOps, MemoryLaws}
use mips.Executable.Image.{Executable, get}
use mips.Emulator.State.{Emulator, Exec}
use mips.Emulator.Safety.Fits.{Fits}

-- Every instruction that the executable holds can be run.
abbrev pub IsRunnable : Executable → Type 0
IsRunnable exe = (addr : ℕ) (i : Instruction) → get exe addr ≡ some i → Fits i

module _ {M : Type 0} (ops : MemoryOps M) (laws : MemoryLaws ops) (exe : Executable) where
  -- Thirty-two registers of 32 bits, the first of them zero, and addresses of 32 bits.
  pub record IsValid (e : Emulator M) : Type 0 where
    pub size : length e.register_file ≡ 32
    pub words : (r : ℕ) → get_or e.register_file r 0 < 2 ^ 32
    pub zero : get_or e.register_file 0 0 ≡ 0
    pub counter-lt : e.program_counter < 2 ^ 32
    pub target-lt : e.jump_target < 2 ^ 32
    pub memory_valid : MemoryLaws.IsValid laws e.memory
    pub same_executable : e.executable ≡ exe

  -- A value satisfies `Q`, an error is an outcome, a panic is not.
  abbrev pub SafeAt : {A : Type 0} → (A → Type 0) → Result A × Emulator M → Type 0
  SafeAt Q (ok a, e) = IsValid e × Q a
  SafeAt Q (err x, e) = IsValid e
  SafeAt Q (panic, e) = ⊥

  pub record Safe {A : Type 0} (Q : A → Type 0) (m : Exec M A) : Type 0 where
    pub at : (e : Emulator M) → IsValid e → SafeAt Q (m e)
