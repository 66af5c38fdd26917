-- ===== src/Web/Debugger/Keeping.antt =====
-- The debugger's loop keeps the emulator well formed.
use mips.Prelude.{ℕ, zero, suc, ◌≡◌, ◌≢◌, refl, ◌∙◌, inl, inr, Bool-cases}
use mips.Prelude.Int.{pos}
use mips.Isa.{Result, ok, err, panic}
use mips.Memory.Lazy.{LazyMemory, lazy_ops}
use mips.Memory.Lazy.Laws.{lazy_laws}
use mips.Executable.Image.{Executable}
use mips.Emulator.State.{Emulator}
use mips.Emulator.Step.{step, is_done}
use mips.Emulator.Safety.Valid.{IsRunnable, IsValid}
use mips.Emulator.Safety.Whole.{step-IsValid}
use mips.Web.Debugger.{
  DebuggerCommand, stop_debugger, start_debugger, step_debugger, update_debugger_freq, TickInfo,
  Mode, waiting, running, Debugger, update_ui, after_single_step, single_step, after_cycle, frame,
  start_running, running_message, waiting_message, message, tick,
}
use mips.Web.Debugger.Rate.{tick_rate-positive}

-- A well-formed emulator of a program that can be run, and a positive rate.
pub record IsSound (d : Debugger) : Type 0 where
  pub exe : Executable
  pub runnable : IsRunnable exe
  pub valid : IsValid lazy_ops lazy_laws exe d.emulator
  pub rate : (n : ℕ) × (d.frequency ≡ pos (suc n))

-- no panic, no error, and a sound debugger
abbrev pub Keeps : Result Debugger → Type 0
Keeps (ok d) = IsSound d
Keeps (err e) = ⊥
Keeps panic = ⊥

abbrev pub NoError : Result (Unit {0}) → Type 0
NoError (ok a) = Unit
NoError (err x) = ⊥
NoError panic = Unit

-- a debugger with another valid emulator and the same rate
pub with_emulator :
    (d d' : Debugger) (s : IsSound d)
    → IsValid lazy_ops lazy_laws s.exe d'.emulator
    → d'.frequency ≡ d.frequency
    → IsSound d'
with_emulator d d' s v rated = record {
  exe = s.exe;
  runnable = s.runnable;
  valid = v;
  rate = (s.rate.0, rated ∙ s.rate.1);
}

after_cycle-Keeps :
    (d : Debugger) (s : IsSound d) (r : Result (Unit {0}) × Emulator LazyMemory)
    (rest : Debugger → Result Debugger)
    → r.0 ≢ panic
    → IsValid lazy_ops lazy_laws s.exe r.1
    → ((d' : Debugger) → IsSound d' → Keeps (rest d'))
    → Keeps (after_cycle d r rest)
unfolding update_ui
after_cycle-Keeps d s (ok a, e) rest calm v on = elim (Bool-cases (is_done e)) [
  | inl done ↦ rw done (with_emulator d _ s v refl)
  | inr more ↦ rw more (on _ (with_emulator d _ s v refl))
]
after_cycle-Keeps d s (err x, e) rest calm v on = with_emulator d _ s v refl
after_cycle-Keeps d s (panic, e) rest calm v on = absurd (calm refl)

after_single_step-Keeps :
    (d : Debugger) (s : IsSound d) (r : Result (Unit {0}) × Emulator LazyMemory)
    → r.0 ≢ panic
    → IsValid lazy_ops lazy_laws s.exe r.1
    → Keeps (after_single_step d r)
unfolding update_ui
after_single_step-Keeps d s (ok a, e) calm v = with_emulator d _ s v refl
after_single_step-Keeps d s (err x, e) calm v = with_emulator d _ s v refl
after_single_step-Keeps d s (panic, e) calm v = absurd (calm refl)

frame-Keeps : (cycles : ℕ) (d : Debugger) → IsSound d → Keeps (frame cycles d)
unfolding frame update_ui
frame-Keeps zero d s = with_emulator d _ s s.valid refl
frame-Keeps (suc cycles) d s =
    let (calm, v) = step-IsValid lazy_ops lazy_laws s.exe s.runnable d.emulator s.valid in
    after_cycle-Keeps d s (step lazy_ops d.emulator) (λ d'. frame cycles d') calm v
      (frame-Keeps cycles)

single_step-Keeps : (d : Debugger) → IsSound d → Keeps (single_step d)
unfolding single_step
single_step-Keeps d s =
    let (calm, v) = step-IsValid lazy_ops lazy_laws s.exe s.runnable d.emulator s.valid in
    after_single_step-Keeps d s (step lazy_ops d.emulator) calm v

start_running-Keeps : (d : Debugger) → IsSound d → Keeps (start_running d)
unfolding start_running
start_running-Keeps d s =
    let (info, made, some_cycle) = tick_rate-positive d s.rate.0 s.rate.1 in
    rw made (with_emulator d _ s s.valid refl)

running_message-Keeps :
    (c : DebuggerCommand) (info : TickInfo) (d : Debugger)
    → IsSound d
    → Keeps (running_message c info d)
unfolding running_message
running_message-Keeps stop_debugger info d s = with_emulator d _ s s.valid refl
running_message-Keeps start_debugger info d s = frame-Keeps info.cycles_per_frame d s
running_message-Keeps step_debugger info d s = frame-Keeps info.cycles_per_frame d s
running_message-Keeps update_debugger_freq info d s =
    let (rate, made, some_cycle) = tick_rate-positive d s.rate.0 s.rate.1 in
    rw made (frame-Keeps rate.cycles_per_frame _ (with_emulator d _ s s.valid refl))

waiting_message-Keeps :
    (c : DebuggerCommand) (d : Debugger) → IsSound d → Keeps (waiting_message c d)
unfolding waiting_message
waiting_message-Keeps stop_debugger d s = s
waiting_message-Keeps start_debugger d s = start_running-Keeps d s
waiting_message-Keeps step_debugger d s = single_step-Keeps d s
waiting_message-Keeps update_debugger_freq d s = s

pub message-by_mode :
    (c : DebuggerCommand) (m : Mode) (d : Debugger) → d.mode ≡ m → IsSound d → Keeps (message c d)
unfolding message
message-by_mode c waiting d now s = rw (now, message) (waiting_message-Keeps c d s)
message-by_mode c (running info) d now s = rw (now, message) (running_message-Keeps c info d s)

pub tick-by_mode : (m : Mode) (d : Debugger) → d.mode ≡ m → IsSound d → Keeps (tick d)
unfolding tick
tick-by_mode waiting d now s = rw (now, tick) s
tick-by_mode (running info) d now s = rw (now, tick) (frame-Keeps info.cycles_per_frame d s)
