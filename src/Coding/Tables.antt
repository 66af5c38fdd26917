-- ===== src/Coding/Tables.antt =====
-- The opcode tables of inst_coding.go. The order of a list is the order in which a Go map is
-- iterated, which differs from run to run.
use mips.Prelude.{ℕ, String, List, [], ◌∷◌, Option, none, some, str_eq, if◌then◌else◌}

abbrev pub OpcodeTable : Type 0
OpcodeTable = List (ℕ × String)

unfoldable pub two_operand_immediate_opcodes : OpcodeTable
two_operand_immediate_opcodes =
    (0x09, "ADDIU")
    ∷ (0x0c, "ANDI")
    ∷ (0x0d, "ORI")
    ∷ (0x0a, "SLTI")
    ∷ (0x0b, "SLTIU")
    ∷ (0x0e, "XORI")
    ∷ []

unfoldable pub branch_opcodes : OpcodeTable
branch_opcodes =
    (0x04, "BEQ") ∷ (0x01, "BLTZ") ∷ (0x07, "BGTZ") ∷ (0x06, "BLEZ") ∷ (0x05, "BNE") ∷ []

unfoldable pub j_type_opcodes : OpcodeTable
j_type_opcodes = (0x02, "J") ∷ (0x03, "JAL") ∷ []

unfoldable pub memory_opcodes : OpcodeTable
memory_opcodes = (0x20, "LB") ∷ (0x24, "LBU") ∷ (0x23, "LW") ∷ (0x28, "SB") ∷ (0x2b, "SW") ∷ []

unfoldable pub constant_shift_funcs : OpcodeTable
constant_shift_funcs = (0x00, "SLL") ∷ (0x03, "SRA") ∷ (0x02, "SRL") ∷ []

unfoldable pub variable_shift_funcs : OpcodeTable
variable_shift_funcs = (0x04, "SLLV") ∷ (0x07, "SRAV") ∷ (0x06, "SRLV") ∷ []

unfoldable pub three_reg_operand_funcs : OpcodeTable
three_reg_operand_funcs =
    (0x21, "ADDU")
    ∷ (0x24, "AND")
    ∷ (0x0b, "MOVN")
    ∷ (0x0a, "MOVZ")
    ∷ (0x27, "NOR")
    ∷ (0x25, "OR")
    ∷ (0x2a, "SLT")
    ∷ (0x2b, "SLTU")
    ∷ (0x23, "SUBU")
    ∷ (0x26, "XOR")
    ∷ []

abbrev pub lui_opcode : ℕ
lui_opcode = 0x0f

abbrev pub jr_func : ℕ
jr_func = 0x08

abbrev pub jalr_func : ℕ
jalr_func = 0x09

-- The first number, in the order of iteration, whose name is the instruction's.
unfoldable pub number_for_instruction : OpcodeTable → String → Option ℕ
number_for_instruction [] inst = none
number_for_instruction ((number, name) ∷ m) inst =
    if str_eq name inst then some number else number_for_instruction m inst
