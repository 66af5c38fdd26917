-- ===== src/Web/Debugger.antt =====
-- web/src/debugger.go: the debugger's state, its loop as a step for each event, and its handlers.
-- The lock is held while the state changes, so a handler is one step here.
mod Tests
pub mod Rate
pub mod Keeping
pub mod Handlers
pub mod Session
use mips.Prelude.{
  ℕ, zero, suc, ◌+◌, ◌*◌, ◌/◌, ◌^◌, String, List, [], ◌∷◌, Bool, true, false, Option, none, some,
  ltb, ◌==◌, if◌then◌else◌, map,
}
use mips.Prelude.Int.{ℤ, pos, negsuc}
use mips.Isa.{Result, ok, err, panic, Error, ◌>>=◌}
use mips.Memory.Lazy.{LazyMemory, lazy_ops, get, set_byte}
use mips.Executable.Image.{Executable}
use mips.Emulator.State.{Emulator, write_reg}
use mips.Emulator.Step.{step, is_done}
use mips.Emulator.Run.{initial_emulator}
use mips.Assembly.Printing.Numerals.{◌+++◌, format_uint}
use mips.Formatting.{format32_bit_hex}

pub data DebuggerCommand : Type 0 where
  stop_debugger start_debugger step_debugger update_debugger_freq : DebuggerCommand

-- frameDuration, in nanoseconds, and cyclesPerFrame
pub record TickInfo : Type 0 where
  pub frame_duration : ℤ
  pub cycles_per_frame : ℕ

-- debugLoop waits for a command, or is within runDebugger.
pub data Mode : Type 0 where
  waiting : Mode
  running : TickInfo → Mode

-- What the page shows stands in the fields below `emulator`: the state of the button, the error,
-- the cells of the registers, and the label of the step count.
pub record Debugger : Type 0 where
  pub frequency : ℤ
  pub emulator : Emulator LazyMemory
  pub step_count : ℕ
  pub mode : Mode
  pub is_playing : Bool
  pub error_view : Option Error
  pub registers : List String
  pub step_count_label : String

abbrev pub empty_executable : Executable
empty_executable = record { segments = []; symbols = [] }

-- `updateUI`, less the views of memory and code
unfoldable pub update_ui : Debugger → Debugger
unfolding ◌+++◌
update_ui d = record d {
  registers = map format32_bit_hex d.emulator.register_file;
  step_count_label = "Steps: " +++ format_uint 10 d.step_count;
}

unfoldable pub new_debugger : Debugger
unfolding update_ui
new_debugger = update_ui (record {
  frequency = pos 4;
  emulator = initial_emulator empty_executable true true;
  step_count = 0;
  mode = waiting;
  is_playing = false;
  error_view = none;
  registers = [];
  step_count_label = "";
})

abbrev pub handle_error : Debugger → Error → Debugger
handle_error d e = record d { is_playing = false; error_view = some e }

abbrev pub hide_error : Debugger → Debugger
hide_error d = record d { error_view = none }

-- time.Second, in nanoseconds
abbrev pub second : ℕ
second = 10 ^ 9

-- A division by zero panics; a quotient of Go is rounded towards zero.
unfoldable pub tick_info : ℤ → Result TickInfo
tick_info (pos zero) = panic
tick_info (pos (suc n)) =
    if ltb 32 (suc n)
    then ok (record { frame_duration = pos (second / 32); cycles_per_frame = suc n / 32 })
    else ok (record { frame_duration = pos (second / suc n); cycles_per_frame = 1 })
tick_info (negsuc n) = ok (record {
  frame_duration = elim (second / suc n) [ zero ↦ pos 0 | suc q ↦ negsuc q ];
  cycles_per_frame = 1;
})

-- `time.NewTicker` panics unless the duration is positive.
unfoldable pub new_ticker : TickInfo → Result TickInfo
new_ticker info = elim info.frame_duration [
  | pos zero ↦ panic
  | pos (suc _) ↦ ok info
  | negsuc _ ↦ panic
]

unfoldable pub tick_rate : Debugger → Result TickInfo
unfolding tick_info new_ticker
tick_rate d = do info ← tick_info d.frequency; new_ticker info

-- `stepDebugger`
abbrev pub after_single_step : Debugger → Result (Unit {0}) × Emulator LazyMemory → Result Debugger
after_single_step d (ok _, e) =
    ok (update_ui (hide_error (record d { emulator = e; step_count = d.step_count + 1 })))
after_single_step d (err x, e) =
    ok (handle_error (record d { emulator = e; step_count = d.step_count + 1 }) x)
after_single_step d (panic, e) = panic

unfoldable pub single_step : Debugger → Result Debugger
single_step d = after_single_step d (step lazy_ops d.emulator)

-- The end of runDebugger: the button says that nothing runs.
abbrev pub stop_running : Debugger → Debugger
stop_running d = record d { mode = waiting; is_playing = false }

abbrev pub after_cycle :
    Debugger
    → Result (Unit {0}) × Emulator LazyMemory
    → (Debugger → Result Debugger)
    → Result Debugger
after_cycle d (ok _, e) rest =
    let d' = record d { emulator = e; step_count = d.step_count + 1 } in
    if is_done e then ok (stop_running (update_ui d')) else rest d'
after_cycle d (err x, e) rest = ok (
    stop_running
      (handle_error (update_ui (record d { emulator = e; step_count = d.step_count + 1 })) x))
after_cycle d (panic, e) rest = panic

-- the loop over the cycles of a frame
unfoldable pub frame : ℕ → Debugger → Result Debugger
frame zero d = ok (update_ui d)
frame (suc cycles) d = after_cycle d (step lazy_ops d.emulator) (λ d'. frame cycles d')

-- the beginning of runDebugger
unfoldable pub start_running : Debugger → Result Debugger
unfolding tick_rate
start_running d = do
  info ← tick_rate d
  ok (hide_error (record d { mode = running info; is_playing = true }))

-- A message in a run: `stopDebugger` ends it, a new rate is taken over, and then there is a frame.
unfoldable pub running_message : DebuggerCommand → TickInfo → Debugger → Result Debugger
unfolding frame tick_rate
running_message stop_debugger info d = ok (stop_running d)
running_message start_debugger info d = frame info.cycles_per_frame d
running_message step_debugger info d = frame info.cycles_per_frame d
running_message update_debugger_freq info d = do
  rate ← tick_rate d
  frame rate.cycles_per_frame (record d { mode = running rate })

unfoldable pub waiting_message : DebuggerCommand → Debugger → Result Debugger
unfolding single_step start_running
waiting_message stop_debugger d = ok d
waiting_message start_debugger d = start_running d
waiting_message step_debugger d = single_step d
waiting_message update_debugger_freq d = ok d

-- debugLoop on a command
unfoldable pub message : DebuggerCommand → Debugger → Result Debugger
unfolding running_message waiting_message
message command d = elim d.mode [
  | waiting ↦ waiting_message command d
  | running info ↦ running_message command info d
]

-- the ticker of a run
unfoldable pub tick : Debugger → Result Debugger
unfolding frame
tick d = elim d.mode [ waiting ↦ ok d | running info ↦ frame info.cycles_per_frame d ]

abbrev pub or_current : Option Executable → Debugger → Executable
or_current (some e) d = e
or_current none d = d.emulator.executable

unfoldable pub set_executable : Option Executable → Debugger → Result Debugger
unfolding message update_ui
set_executable e d = do
  stopped ← message stop_debugger (hide_error d)
  ok (
      update_ui (record stopped {
        emulator = initial_emulator (or_current e stopped) true true;
        step_count = 0;
      }))

-- the callback of the register cells
abbrev pub after_write : Debugger → Result (Unit {0}) × Emulator LazyMemory → Result Debugger
after_write d (ok _, e) = ok (record d { emulator = e })
after_write d (err x, e) = err x
after_write d (panic, e) = panic

unfoldable pub set_register : ℕ → ℕ → Debugger → Result Debugger
unfolding write_reg
set_register reg val d = after_write d (write_reg reg val d.emulator)

unfoldable pub get_byte : Debugger → ℕ → ℕ
get_byte d ptr = get d.emulator.memory ptr

unfoldable pub set_memory : ℕ → ℕ → Debugger → Debugger
set_memory ptr b d = record d {
  emulator = record d.emulator { memory = set_byte d.emulator.memory ptr b };
}

-- The handler of the rate: the number is stored, then the loop is told.
unfoldable pub set_frequency : ℤ → Debugger → Result Debugger
unfolding message
set_frequency num d = message update_debugger_freq (record d { frequency = num })
