-- ===== src/Coding/Target.antt =====
-- `instructionBranchOffset` and `instructionJumpBase`: where a branch or a jump goes.
use mips.Prelude.{
  ℕ, String, List, none, some, Bool, not, ◌||◌, bit_and, ◌==◌, if◌then◌else◌, lookup_str,
}
use mips.Prelude.Int.{ℤ, pos, negsuc, ltb_ℤ, shr_ℤ}
use mips.Isa.{
  Instruction, Result, ok, err, unknown_symbol, expecting_relative, expecting_absolute,
  branch_out_of_bounds, jump_overflows, jump_not_encodable, misaligned_address, add32, sub32, ◌<<◌,
  sext16, int16, int32,
}

abbrev pub SymbolTable : Type 0
SymbolTable = List (String × ℕ)

-- (int32(addr) - int32(instAddr+4)) >> 2; the difference wraps at 32 bits.
unfoldable pub branch_words : ℕ → ℕ → ℤ
branch_words addr inst_addr = shr_ℤ (int32 (sub32 addr (add32 inst_addr 4))) 2

unfoldable pub symbol_offset : ℕ → ℕ → Result ℕ
unfolding branch_words
symbol_offset addr inst_addr =
    let diff = branch_words addr inst_addr in
    if not (ltb_ℤ diff (pos 0x8000)) || ltb_ℤ diff (negsuc 0x7fff)
    then err branch_out_of_bounds
    else ok (sext16 (int16 diff) << 2)

unfoldable pub instruction_branch_offset : Instruction → ℕ → SymbolTable → Result ℕ
unfolding symbol_offset
instruction_branch_offset inst inst_addr symbols =
    if inst.code_pointer.absolute
    then err (expecting_relative inst.name)
    else if inst.code_pointer.is_symbol
    then elim (lookup_str inst.code_pointer.symbol symbols) [
      | none ↦ err (unknown_symbol inst.code_pointer.symbol)
      | some addr ↦ symbol_offset addr inst_addr
    ]
    else if not (bit_and inst.code_pointer.constant 3 == 0)
    then err misaligned_address
    else ok inst.code_pointer.constant

-- The top four bits of two addresses are the same.
unfoldable pub same_region : ℕ → ℕ → Bool
same_region addr inst_addr = bit_and addr 0xf0000000 == bit_and (add32 inst_addr 4) 0xf0000000

unfoldable pub instruction_jump_base : Instruction → ℕ → SymbolTable → Result ℕ
unfolding same_region
instruction_jump_base inst inst_addr symbols =
    if not inst.code_pointer.absolute
    then err (expecting_absolute inst.name)
    else if inst.code_pointer.is_symbol
    then elim (lookup_str inst.code_pointer.symbol symbols) [
      | none ↦ err (unknown_symbol inst.code_pointer.symbol)
      | some addr ↦
          if not (same_region addr inst_addr)
          then err jump_overflows
          else ok (bit_and addr 0x0fffffff)
    ]
    else let addr = inst.code_pointer.constant in
      if not (same_region addr inst_addr)
      then err jump_not_encodable
      else if not (bit_and addr 3 == 0)
      then err misaligned_address
      else ok (bit_and addr 0x0fffffff)
