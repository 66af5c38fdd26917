-- ===== src/Emulator/Safety/Fits.antt =====
-- Which instructions the emulator can run: enough registers for the name, indices and constants in
-- range. The bounds are those of the Go types, and 32 for a register.
use mips.Prelude.{ℕ, ◌^◌, ◌≤◌, ◌<◌, String, [], ◌∷◌, All, length, is_one_of, if◌then◌else◌}
use mips.Isa.{Instruction}

-- The number of operands that the emulator reads from `Registers`, by name.
unfoldable pub min_registers : String → ℕ
min_registers name =
    if is_one_of name (
      "ADDU" ∷ "AND" ∷ "NOR" ∷ "OR" ∷ "SUBU" ∷ "XOR" ∷ "SLT" ∷ "SLTU" ∷ "SLLV" ∷ "SRLV" ∷ "SRAV"
      ∷ "MOVN" ∷ "MOVZ" ∷ [])
    then 3
    else if is_one_of name (
        "ADDIU" ∷ "ANDI" ∷ "ORI" ∷ "XORI" ∷ "SLTI" ∷ "SLTIU" ∷ "SLL" ∷ "SRL" ∷ "SRA" ∷ "BEQ" ∷ "BNE"
        ∷ [])
    then 2
    else if is_one_of name (
        "BGEZ" ∷ "BGTZ" ∷ "BLEZ" ∷ "BLTZ" ∷ "JR" ∷ "JALR" ∷ "LB" ∷ "LBU" ∷ "LW" ∷ "SB" ∷ "SW"
        ∷ "LUI" ∷ [])
    then 1
    else 0

pub record Fits (i : Instruction) : Type 0 where
  pub enough : min_registers i.name ≤ length i.registers
  pub registers-lt : All (λ r. r < 32) i.registers
  pub base-lt : i.memory_reference.register < 32
  pub unsigned-lt : i.unsigned_constant16 < 2 ^ 16
  pub signed-lt : i.signed_constant16 < 2 ^ 16
