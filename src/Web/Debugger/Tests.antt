-- ===== src/Web/Debugger/Tests.antt =====
-- Rates.
use mips.Prelude.{◌≡◌, refl, ◌/◌}
use mips.Prelude.Int.{pos}
use mips.Isa.{ok}
use mips.Web.Debugger.{tick_info, second}

tick_info-fast :
    tick_info (pos 1000) ≡ ok (record { frame_duration = pos (second / 32); cycles_per_frame = 31 })
unfolding tick_info
tick_info-fast = refl
