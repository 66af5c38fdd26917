-- ===== src/Web/CodeView/Tests.antt =====
-- Where the view begins.
use mips.Prelude.{◌≡◌, refl}
use mips.Web.CodeView.{start_address}

start_address-middle : start_address 0x1000 ≡ 0xff4
unfolding start_address
start_address-middle = refl

start_address-low : start_address 12 ≡ 0
unfolding start_address
start_address-low = refl
