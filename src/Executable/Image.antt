-- ===== src/Executable/Image.antt =====
-- `Executable` with `End`, `Get` and `addressInUse`. A map of segments is a list of pairs with
-- distinct keys, in an order of iteration.
use mips.Prelude.{
  ℕ, ◌*◌, ◌-◌, List, [], ◌∷◌, Option, none, Bool, false, ◌&&◌, ◌||◌, ltb, leb, if◌then◌else◌,
  length, get_elem?,
}
use mips.Isa.{Instruction, u32, add32, ◌>>>◌}
use mips.Coding.Target.{SymbolTable}

abbrev pub Segments : Type 0
Segments = List (ℕ × List Instruction)

pub record Executable : Type 0 where
  pub segments : Segments
  pub symbols : SymbolTable

-- segStart + uint32(len(insts)*4)
unfoldable pub segment_end : ℕ × List Instruction → ℕ
segment_end (seg_start, insts) = add32 seg_start (u32 (length insts * 4))

unfoldable pub end_from : ℕ → Segments → ℕ
unfolding segment_end
end_from last_addr [] = last_addr
end_from last_addr (seg ∷ rest) =
    end_from (if ltb last_addr (segment_end seg) then segment_end seg else last_addr) rest

unfoldable pub end : Executable → ℕ
unfolding end_from
end e = end_from 0 e.segments

unfoldable pub holds : ℕ → ℕ × List Instruction → Bool
unfolding segment_end
holds addr (seg_start, insts) = leb seg_start addr && ltb addr (segment_end (seg_start, insts))

unfoldable pub get_from : Segments → ℕ → Option Instruction
unfolding holds
get_from [] addr = none
get_from ((seg_start, insts) ∷ rest) addr =
    if holds addr (seg_start, insts)
    then get_elem? insts ((addr - seg_start) >>> 2)
    else get_from rest addr

unfoldable pub get : Executable → ℕ → Option Instruction
unfolding get_from
get e addr = get_from e.segments addr

unfoldable pub address_in_use : Segments → ℕ → Bool
unfolding holds
address_in_use [] addr = false
address_in_use (seg ∷ rest) addr = holds addr seg || address_in_use rest addr
