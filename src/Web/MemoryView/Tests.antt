-- ===== src/Web/MemoryView/Tests.antt =====
-- Bases of the view.
use mips.Prelude.{◌≡◌, refl, some}
use mips.Web.MemoryView.{base_of}

base_of-middle : base_of 8 0x1005 ≡ some 0x1000
unfolding base_of
base_of-middle = refl

-- The last eight bytes of the memory are not in the view of their address.
base_of-last : base_of 8 0xffffffff ≡ some 0xffffffc8
unfolding base_of
base_of-last = refl
