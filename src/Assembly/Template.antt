-- ===== src/Assembly/Template.antt =====
-- template.go: the kinds of arguments that each instruction takes.
use mips.Prelude.{
  ℕ, ◌+◌, String, List, [], ◌∷◌, Bool, true, false, ◌&&◌, not, ◌||◌, ◌==◌, str_eq, if◌then◌else◌,
  length,
}
use mips.Assembly.Token.{
  ArgToken, TokenizedInstruction, register_of, unsigned_constant16_of, signed_constant16_of,
  constant5_of, relative_code_pointer_of, absolute_code_pointer_of, memory_reference_of,
}

pub data ArgumentType : Type 0 where
  register signed_constant16 unsigned_constant16 constant5 : ArgumentType
  absolute_code_pointer relative_code_pointer memory_address : ArgumentType

pub record Template : Type 0 where
  pub name : String
  pub arguments : List ArgumentType

abbrev pub template : String → List ArgumentType → Template
template n args = record { name = n; arguments = args }

-- the switch of `Match`
unfoldable pub accepts : ArgumentType → ArgToken → Bool
unfolding register_of unsigned_constant16_of signed_constant16_of constant5_of
    relative_code_pointer_of absolute_code_pointer_of memory_reference_of
accepts register t = (register_of t).1
accepts signed_constant16 t = (signed_constant16_of t).1
accepts unsigned_constant16 t = (unsigned_constant16_of t).1
accepts constant5 t = (constant5_of t).1
accepts absolute_code_pointer t = (absolute_code_pointer_of t).1
accepts relative_code_pointer t = (relative_code_pointer_of t).1
accepts memory_address t = (memory_reference_of t).1

-- the loop of `Match`; the lists have one length
unfoldable pub accepts_all : List ArgumentType → List ArgToken → Bool
unfolding accepts
accepts_all (a ∷ as') (t ∷ ts) = accepts a t && accepts_all as' ts
accepts_all _ _ = true

unfoldable pub match : Template → TokenizedInstruction → Bool
unfolding accepts_all
match t tok =
    if not (str_eq t.name tok.name) || not (length t.arguments == length tok.arguments)
    then false
    else accepts_all t.arguments tok.arguments

unfoldable pub is_register : ArgumentType → Bool
is_register register = true
is_register _ = false

unfoldable pub register_count : List ArgumentType → ℕ
unfolding is_register
register_count [] = 0
register_count (a ∷ as') = (if is_register a then 1 else 0) + register_count as'

unfoldable pub templates : List Template
templates =
    template "NOP" ([])
    ∷ template "ADDIU" (register ∷ register ∷ signed_constant16 ∷ [])
    ∷ template "ADDU" (register ∷ register ∷ register ∷ [])
    ∷ template "AND" (register ∷ register ∷ register ∷ [])
    ∷ template "ANDI" (register ∷ register ∷ unsigned_constant16 ∷ [])
    ∷ template "BEQ" (register ∷ register ∷ relative_code_pointer ∷ [])
    ∷ template "BGEZ" (register ∷ relative_code_pointer ∷ [])
    ∷ template "BGTZ" (register ∷ relative_code_pointer ∷ [])
    ∷ template "BLEZ" (register ∷ relative_code_pointer ∷ [])
    ∷ template "BLTZ" (register ∷ relative_code_pointer ∷ [])
    ∷ template "BNE" (register ∷ register ∷ relative_code_pointer ∷ [])
    ∷ template "J" (absolute_code_pointer ∷ [])
    ∷ template "JAL" (absolute_code_pointer ∷ [])
    ∷ template "JALR" (register ∷ [])
    ∷ template "JALR" (register ∷ register ∷ [])
    ∷ template "JR" (register ∷ [])
    ∷ template "LB" (register ∷ memory_address ∷ [])
    ∷ template "LBU" (register ∷ memory_address ∷ [])
    ∷ template "LW" (register ∷ memory_address ∷ [])
    ∷ template "SB" (register ∷ memory_address ∷ [])
    ∷ template "SW" (register ∷ memory_address ∷ [])
    ∷ template "LUI" (register ∷ unsigned_constant16 ∷ [])
    ∷ template "MOVN" (register ∷ register ∷ register ∷ [])
    ∷ template "MOVZ" (register ∷ register ∷ register ∷ [])
    ∷ template "NOR" (register ∷ register ∷ register ∷ [])
    ∷ template "OR" (register ∷ register ∷ register ∷ [])
    ∷ template "ORI" (register ∷ register ∷ unsigned_constant16 ∷ [])
    ∷ template "SLL" (register ∷ register ∷ constant5 ∷ [])
    ∷ template "SLLV" (register ∷ register ∷ register ∷ [])
    ∷ template "SLT" (register ∷ register ∷ register ∷ [])
    ∷ template "SLTI" (register ∷ register ∷ signed_constant16 ∷ [])
    ∷ template "SLTIU" (register ∷ register ∷ signed_constant16 ∷ [])
    ∷ template "SLTU" (register ∷ register ∷ register ∷ [])
    ∷ template "SRA" (register ∷ register ∷ constant5 ∷ [])
    ∷ template "SRAV" (register ∷ register ∷ register ∷ [])
    ∷ template "SRL" (register ∷ register ∷ constant5 ∷ [])
    ∷ template "SRLV" (register ∷ register ∷ register ∷ [])
    ∷ template "SUBU" (register ∷ register ∷ register ∷ [])
    ∷ template "XOR" (register ∷ register ∷ register ∷ [])
    ∷ template "XORI" (register ∷ register ∷ unsigned_constant16 ∷ [])
    ∷ []
