-- ===== src/Assembly/Parse.antt =====
-- `ParseTokenizedInstruction`.
use mips.Prelude.{List, [], ◌∷◌, ◌++◌, Bool, false, ◌||◌, str_eq, if◌then◌else◌}
use mips.Isa.{Instruction, instruction, Result, ok, err, bad_usage, unknown_instruction}
use mips.Assembly.Token.{
  ArgToken, TokenizedInstruction, register_of, unsigned_constant16_of, signed_constant16_of,
  constant5_of, relative_code_pointer_of, absolute_code_pointer_of, memory_reference_of,
}
use mips.Assembly.Template.{
  ArgumentType, register, signed_constant16, unsigned_constant16, constant5, absolute_code_pointer,
  relative_code_pointer, memory_address, Template, templates, match,
}

-- the switch of the loop over the arguments
unfoldable pub fill : ArgumentType → ArgToken → Instruction → Instruction
unfolding register_of unsigned_constant16_of signed_constant16_of constant5_of
    relative_code_pointer_of absolute_code_pointer_of memory_reference_of
fill register t res = record res { registers = res.registers ++ (register_of t).0 ∷ [] }
fill signed_constant16 t res = record res { signed_constant16 = (signed_constant16_of t).0 }
fill unsigned_constant16 t res = record res { unsigned_constant16 = (unsigned_constant16_of t).0 }
fill constant5 t res = record res { constant5 = (constant5_of t).0 }
fill absolute_code_pointer t res = record res { code_pointer = (absolute_code_pointer_of t).0 }
fill relative_code_pointer t res = record res { code_pointer = (relative_code_pointer_of t).0 }
fill memory_address t res = record res { memory_reference = (memory_reference_of t).0 }

unfoldable pub fill_all : List ArgumentType → List ArgToken → Instruction → Instruction
unfolding fill
fill_all (a ∷ as') (t ∷ ts) res = fill_all as' ts (fill a t res)
fill_all _ _ res = res

-- the loop over the templates, with `validName`
unfoldable pub parse_from : Bool → List Template → TokenizedInstruction → Result Instruction
unfolding match fill_all
parse_from valid_name [] t =
    if valid_name then err (bad_usage t.name) else err (unknown_instruction t.name)
parse_from valid_name (template ∷ rest) t =
    let other = parse_from (valid_name || str_eq template.name t.name) rest t in
    if match template t
    then ok (fill_all template.arguments t.arguments (instruction t.name []))
    else other

unfoldable pub parse_tokenized_instruction : TokenizedInstruction → Result Instruction
unfolding parse_from templates
parse_tokenized_instruction t = parse_from false templates t
