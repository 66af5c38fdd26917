-- ===== src/Web/Debugger/Session.antt =====
-- Sessions of the debugger: what stays true of its emulator.
use mips.Prelude.{ℕ, suc, ◌^◌, ◌<◌, ◌≡◌, refl, subst, List, [], ◌∷◌, Option, none, some, All}
use mips.Prelude.Int.{ℤ, pos}
use mips.Isa.{Result, ok, err, panic, ◌>>=◌}
use mips.Executable.Image.{Executable}
use mips.Emulator.Safety.Valid.{IsRunnable}
use mips.Web.Debugger.{
  DebuggerCommand, update_debugger_freq, Debugger, new_debugger, message, tick, set_executable,
  set_register, set_memory, set_frequency,
}
use mathlib.Core.Option.{some-injective}
use mips.Web.Debugger.Keeping.{IsSound, Keeps, message-by_mode, tick-by_mode}
use mips.Web.Debugger.Handlers.{
  set_executable-Keeps, set_register-Keeps, set_memory-IsSound, new_debugger-IsSound,
}

-- What reaches the debugger: a command, a tick, and the calls of the page.
pub data Event : Type 0 where
  command : DebuggerCommand → Event
  ticked : Event
  frequency_entered : ℤ → Event
  register_entered : ℕ → ℕ → Event
  byte_entered : ℕ → ℕ → Event
  executable_loaded : Option Executable → Event

unfoldable pub handle : Event → Debugger → Result Debugger
unfolding message tick set_frequency set_register set_memory set_executable
handle (command c) d = message c d
handle ticked d = tick d
handle (frequency_entered num) d = set_frequency num d
handle (register_entered reg val) d = set_register reg val d
handle (byte_entered ptr b) d = ok (set_memory ptr b d)
handle (executable_loaded e) d = set_executable e d

unfoldable pub session : List Event → Debugger → Result Debugger
unfolding handle
session [] d = ok d
session (e ∷ rest) d = do after ← handle e d; session rest after

-- What the events may bring: a rate of at least one, a value of 32 bits for one of the registers
-- but the first, a byte, and a program that can be run.
abbrev pub IsFair : Event → Type 0
IsFair (command c) = Unit
IsFair ticked = Unit
IsFair (frequency_entered num) = (n : ℕ) × (num ≡ pos (suc n))
IsFair (register_entered reg val) = (0 < reg) × (reg < 32) × (val < 2 ^ 32)
IsFair (byte_entered ptr b) = b < 2 ^ 8
IsFair (executable_loaded none) = Unit
IsFair (executable_loaded (some e)) = IsRunnable e

Keeps-ok : (r : Result Debugger) → Keeps r → (d : Debugger) × (r ≡ ok d) × IsSound d
Keeps-ok (ok d) s = (d, refl, s)
Keeps-ok (err e) s = absurd s
Keeps-ok panic s = absurd s

handle-Keeps : (e : Event) (d : Debugger) → IsFair e → IsSound d → Keeps (handle e d)
unfolding handle set_frequency
handle-Keeps (command c) d fair s = message-by_mode c d.mode d refl s
handle-Keeps ticked d fair s = tick-by_mode d.mode d refl s
handle-Keeps (frequency_entered num) d fair s =
    message-by_mode update_debugger_freq d.mode (record d { frequency = num }) refl
      (record { exe = s.exe; runnable = s.runnable; valid = s.valid; rate = fair })
handle-Keeps (register_entered reg val) d fair s = set_register-Keeps reg val d fair s
handle-Keeps (byte_entered ptr b) d fair s = set_memory-IsSound ptr b d fair s
handle-Keeps (executable_loaded none) d fair s =
    set_executable-Keeps none d (λ exe is. absurd (cc)) s
handle-Keeps (executable_loaded (some e)) d fair s =
    set_executable-Keeps (some e) d (λ exe is. subst IsRunnable (some-injective e exe is) fair) s

session-from :
    (events : List Event) (d : Debugger)
    → All IsFair events
    → IsSound d
    → (after : Debugger) × (session events d ≡ ok after) × IsSound after
unfolding session
session-from [] d fair s = (d, refl, s)
session-from (e ∷ rest) d fair s =
    let (next, handled, sound) = Keeps-ok (handle e d) (handle-Keeps e d fair.0 s) in
    let (after, more, still) = session-from rest next fair.1 sound in
    (after, rw handled more, still)

-- Let the debugger start as it is made, and get any sequence of commands, ticks, rates, entered
-- registers and bytes, and programs, in any order. If each rate is at least one, each register that
-- is entered is one of the thirty-two but not register 0, its value is below 2 ^ 32 and each byte
-- below 2 ^ 8, and the instructions of each program have the registers and constants that the
-- emulator needs, then nothing panics and after the sequence the emulator is well formed. (The page
-- also takes a value for register 0, which would leave it other than zero: such an event is not
-- covered.)
pub session-IsSound :
    (events : List Event)
    → All IsFair events
    → (after : Debugger) × (session events new_debugger ≡ ok after) × IsSound after
session-IsSound events fair = session-from events new_debugger fair new_debugger-IsSound
