-- ===== src/Web/Debugger/Rate.antt =====
-- The rate of a run.
use native.Mathlib.Nat as N
use mips.Prelude.{
  ℕ, zero, suc, ◌-◌, ◌/◌, ◌^◌, ◌<◌, ◌≤◌, ◌≡◌, refl, arith, ltb, inl, inr, Bool-cases,
}
use mips.Prelude.Int.{pos}
use mips.Isa.{ok}
use mips.Web.Debugger.{TickInfo, Debugger, tick_info, new_ticker, tick_rate}

long_enough : (n : ℕ) → n < 32 → 1 ≤ 10 ^ 9 / suc n
long_enough n h = elim (Bool-cases (ltb (10 ^ 9 / suc n) 1)) [
  | inr least ↦ ground (arith, least)
  | inl less ↦
      let short : 10 ^ 9 / suc n < 1 = ground (arith, less) in
      let over = (N.div-lt_iff_lt-mul (N.zero-lt-suc n)).0 short in absurd (omega (arith, over, h))
]

new_ticker-ok :
    (duration cycles : ℕ)
    → 1 ≤ duration
    → new_ticker (record { frame_duration = pos duration; cycles_per_frame = cycles })
      ≡ ok (record { frame_duration = pos duration; cycles_per_frame = cycles })
unfolding new_ticker
new_ticker-ok zero cycles h = absurd (omega (arith, h))
new_ticker-ok (suc n) cycles h = refl

-- A positive rate has a ticker, with at least one cycle in a frame.
pub tick_rate-positive :
    (d : Debugger) (n : ℕ)
    → d.frequency ≡ pos (suc n)
    → (info : TickInfo) × (tick_rate d ≡ ok info) × (1 ≤ info.cycles_per_frame)
unfolding tick_rate tick_info new_ticker
tick_rate-positive d n rated = elim (Bool-cases (ltb 32 (suc n))) [
  | inl fast ↦ (
    record { frame_duration = pos (10 ^ 9 / 32); cycles_per_frame = suc n / 32 },
    rw rated (rw fast refl),
    ground (arith, fast),
  )
  | inr slow ↦
      let some_time : 1 ≤ 10 ^ 9 / suc n = long_enough n (ground (arith, slow)) in
      let counted : 10 ^ 9 / suc n ≡ suc (10 ^ 9 / suc n - 1) = omega (arith, some_time) in
      (
        record { frame_duration = pos (10 ^ 9 / suc n); cycles_per_frame = 1 },
        rw rated (rw slow (new_ticker-ok (10 ^ 9 / suc n) 1 some_time)),
        omega arith,
      )
]
