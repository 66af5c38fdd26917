-- ===== src/Coding/Landing.antt =====
-- The offsets that branches and jumps are given lead to the address that is meant.
use mips.Prelude.{
  ℕ, ◌/◌, ◌%◌, ◌^◌, ◌<◌, ◌≡◌, ◌∙◌, sym, arith, if◌then◌else◌, bit_or, bit_and, some, Option,
  lookup_str,
}
use mips.Bits.Fields.{bit_or_disjoint, bit_and_mask, bit_and_high}
use mips.Isa.{Instruction, ok, add32, sext16, ◌<<◌}
use mips.Coding.Target.{
  SymbolTable, branch_words, symbol_offset, same_region, instruction_jump_base,
}

-- A branch to a symbol that is given an offset leads to the symbol's address, if that address and
-- the branch's are multiples of four.
pub symbol_offset-lands :
    (addr inst_addr off : ℕ)
    → addr < 2 ^ 32
    → addr % 4 ≡ 0
    → inst_addr % 4 ≡ 0
    → symbol_offset addr inst_addr ≡ ok off
    → add32 (add32 inst_addr 4) off ≡ addr
unfolding symbol_offset branch_words
symbol_offset-lands addr inst_addr off h aligned aligned_inst found = ground arith

-- Whatever a 16-bit immediate can reach is given the offset of that immediate, so a label is out of
-- bounds only if no branch can reach it.
pub symbol_offset-reaches :
    (inst_addr c : ℕ)
    → c < 2 ^ 16
    → symbol_offset (add32 (add32 inst_addr 4) (sext16 c << 2)) inst_addr ≡ ok (sext16 c << 2)
unfolding symbol_offset branch_words
symbol_offset-reaches inst_addr c h = ground arith

region_join :
    (a b : ℕ)
    → a < 2 ^ 32
    → bit_and a 0xf0000000 ≡ bit_and b 0xf0000000
    → bit_or (bit_and b 0xf0000000) (bit_and a 0x0fffffff) ≡ a
region_join a b h same =
    rw (sym same, bit_and_high 4 28 a, bit_and_mask 28 a)
      (bit_or_disjoint 28 (a / 2 ^ 28 % 2 ^ 4) (a % 2 ^ 28) (omega arith) ∙ omega arith)

-- The address that a code pointer names.
abbrev pub pointer_address : Instruction → SymbolTable → Option ℕ
pointer_address inst symbols =
    if inst.code_pointer.is_symbol
    then lookup_str inst.code_pointer.symbol symbols
    else some inst.code_pointer.constant

-- A jump that is given a base leads to the 32-bit address that its pointer names: the base and the top four
-- bits of the address after the instruction make up that address.
pub instruction_jump_base-lands :
    (inst : Instruction) (inst_addr : ℕ) (symbols : SymbolTable) (base addr : ℕ)
    → pointer_address inst symbols ≡ some addr
    → addr < 2 ^ 32
    → instruction_jump_base inst inst_addr symbols ≡ ok base
    → bit_or (bit_and (add32 inst_addr 4) 0xf0000000) base ≡ addr
unfolding instruction_jump_base same_region
instruction_jump_base-lands inst inst_addr symbols base addr named h found =
    ground (arith, region_join addr (add32 inst_addr 4) h)
