-- ===== src/Emulator/Run.antt =====
-- The loop of mips-run: step until the program is done or a step fails.
use mips.Prelude.{Bool, not, false, replicate, ℕ, zero, suc, Option, none, some, if◌then◌else◌}
use mips.Isa.{Result, ok, err, panic}
use mips.Memory.Interface.{MemoryOps}
use mips.Memory.Lazy.{LazyMemory, new_lazy_memory}
use mips.Executable.Image.{Executable}
use mips.Emulator.State.{Emulator}
use mips.Emulator.Step.{is_done, step}

-- the emulator that the command makes, with the flags `-little` and `-misaligned`
abbrev pub initial_emulator : Executable → Bool → Bool → Emulator LazyMemory
initial_emulator exc little_endian relax_alignment = record {
  register_file = replicate 32 0;
  memory = new_lazy_memory;
  executable = exc;
  program_counter = 0;
  little_endian = little_endian;
  force_mem_alignment = not relax_alignment;
  delay_slot = false;
  jump_next = false;
  jump_target = 0;
}

-- What the loop ends with, and the emulator then.
abbrev pub Outcome : Type 0 → Type 0
Outcome M = Option (Result (Unit {0})) × Emulator M

module _ {M : Type 0} where
  -- An error ends the loop (`os.Exit(1)`).
  abbrev pub after_step : Result (Unit {0}) × Emulator M → (Emulator M → Outcome M) → Outcome M
  after_step (ok _, e) rest = rest e
  after_step (err x, e) rest = (some (err x), e)
  after_step (panic, e) rest = (some panic, e)

module _ {M : Type 0} (ops : MemoryOps M) where
  -- `none` means that the fuel ran out: a program need not end.
  unfoldable pub run : ℕ → Emulator M → Outcome M
  unfolding is_done
  run zero e = (none, e)
  run (suc fuel) e =
      if is_done e then (some (ok tt), e) else after_step (step ops e) (λ e'. run fuel e')
