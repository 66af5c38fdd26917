-- ===== src/Web/Debugger/Handlers.antt =====
-- The page's calls keep the emulator well formed.
use mips.Prelude.{
  ℕ, ◌^◌, ◌<◌, ◌≡◌, refl, sym, ap, ◌∙◌, subst, true, Option, none, some, arith, ltb, length,
}
use mips.Isa.{Instruction, Result, ok, err, panic}
use mips.Memory.Interface.{MemoryLaws}
use mips.Memory.Lazy.{LazyMemory, lazy_ops}
use mips.Memory.Lazy.Laws.{lazy_laws}
use mips.Executable.Image.{Executable, get}
use mips.Emulator.Safety.Fits.{Fits}
use mips.Emulator.State.{Emulator, write_reg}
use mips.Emulator.Run.{initial_emulator}
use mips.Emulator.Safety.Valid.{IsRunnable, IsValid, SafeAt}
use mips.Emulator.Safety.Rules.{Any, write_reg-Safe}
use mips.Emulator.Safety.Source.{initial_emulator-IsValid}
use mips.Web.Debugger.{
  stop_debugger, Mode, waiting, running, Debugger, update_ui, new_debugger, running_message,
  waiting_message, message, set_executable, set_register, set_memory, empty_executable, hide_error,
  stop_running, after_write,
}
use mips.Web.Debugger.Keeping.{IsSound, Keeps, with_emulator, NoError}

-- a new emulator of a program that can be run
reloaded :
    (d d' : Debugger) (exe : Executable)
    → IsRunnable exe
    → d'.emulator ≡ initial_emulator exe true true
    → d'.frequency ≡ d.frequency
    → IsSound d
    → IsSound d'
reloaded d d' exe runnable fresh rated s = record {
  exe = exe;
  runnable = runnable;
  valid =
      subst (IsValid lazy_ops lazy_laws exe) (sym fresh) (initial_emulator-IsValid exe true true);
  rate = (s.rate.0, rated ∙ s.rate.1);
}

-- a debugger that is stopped
record Stopped (d : Debugger) : Type 0 where
  after : Debugger
  stopped : message stop_debugger d ≡ ok after
  same_emulator : after.emulator ≡ d.emulator
  same_rate : after.frequency ≡ d.frequency

stop-by_mode : (m : Mode) (d : Debugger) → d.mode ≡ m → Stopped d
unfolding message waiting_message running_message
stop-by_mode waiting d now = record {
  after = d;
  stopped = rw (now, message) (ap (λ m. ok (record d { mode = m })) now);
  same_emulator = refl;
  same_rate = refl;
}
stop-by_mode (running info) d now = record {
  after = stop_running d;
  stopped = rw (now, message) refl;
  same_emulator = refl;
  same_rate = refl;
}

pub set_executable-Keeps :
    (e : Option Executable) (d : Debugger)
    → ((exe : Executable) → e ≡ some exe → IsRunnable exe)
    → IsSound d
    → Keeps (set_executable e d)
unfolding set_executable update_ui
set_executable-Keeps (some exe) d fair s =
    let stop = stop-by_mode d.mode (hide_error d) refl in
    rw stop.stopped (reloaded d _ exe (fair exe refl) refl stop.same_rate s)
set_executable-Keeps none d fair s =
    let stop = stop-by_mode d.mode (hide_error d) refl in
    let same : stop.after.emulator.executable ≡ s.exe =
      ap (λ e. e.executable) stop.same_emulator ∙ s.valid.same_executable in
    rw stop.stopped (
      reloaded d _ s.exe s.runnable (ap (λ exe. initial_emulator exe true true) same) stop.same_rate
        s)

empty_get : (addr : ℕ) (i : Instruction) → get empty_executable addr ≡ some i → Fits i
unfolding get
empty_get addr i found = absurd (cc)

after_write-Keeps :
    (d : Debugger) (s : IsSound d) (r : Result (Unit {0}) × Emulator LazyMemory)
    → SafeAt lazy_ops lazy_laws s.exe Any r
    → NoError r.0
    → Keeps (after_write d r)
after_write-Keeps d s (ok a, e) safe calm = with_emulator d _ s safe.0 refl
after_write-Keeps d s (err x, e) safe calm = absurd calm
after_write-Keeps d s (panic, e) safe calm = absurd safe

pub set_register-Keeps :
    (reg val : ℕ) (d : Debugger)
    → (0 < reg) × (reg < 32) × (val < 2 ^ 32)
    → IsSound d
    → Keeps (set_register reg val d)
unfolding set_register
set_register-Keeps reg val d fair s =
    let (above, below, small) = fair in
    let size = s.valid.size in
    let inside : ltb reg (length d.emulator.register_file) ≡ true = ground (arith, size, below) in
    after_write-Keeps d s (write_reg reg val d.emulator)
      ((write_reg-Safe lazy_ops lazy_laws s.exe reg val below (λ same. omega (arith, same, above))
          small).at
        d.emulator s.valid)
      (rw (inside, write_reg) tt)

pub set_memory-IsSound :
    (ptr b : ℕ) (d : Debugger) → b < 2 ^ 8 → IsSound d → IsSound (set_memory ptr b d)
unfolding set_memory
set_memory-IsSound ptr b d small s =
    with_emulator d _ s
      (record {
        size = s.valid.size;
        words = s.valid.words;
        zero = s.valid.zero;
        counter-lt = s.valid.counter-lt;
        target-lt = s.valid.target-lt;
        memory_valid =
            MemoryLaws.set-IsValid lazy_laws d.emulator.memory ptr b s.valid.memory_valid small;
        same_executable = s.valid.same_executable;
      })
      refl

pub new_debugger-IsSound : IsSound new_debugger
unfolding new_debugger update_ui
new_debugger-IsSound = record {
  exe = empty_executable;
  runnable = λ addr i found. empty_get addr i found;
  valid = initial_emulator-IsValid empty_executable true true;
  rate = (3, refl);
}
