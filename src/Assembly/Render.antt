-- ===== src/Assembly/Render.antt =====
-- `Instruction.Render`.
use mips.Prelude.{
  ℕ, ◌+◌, String, List, [], ◌∷◌, Option, none, some, Bool, true, false, not, ◌==◌, bool_eq, str_eq,
  if◌then◌else◌, length, get_or,
}
use mips.Isa.{
  Instruction, CodePointer, Result, ok, err, invalid_arguments, no_such_instruction, sext16,
}
use mips.Assembly.Token.{ArgToken, no_token, TokenizedLine, no_line}
use mips.Assembly.Template.{
  ArgumentType, register, signed_constant16, unsigned_constant16, constant5, absolute_code_pointer,
  relative_code_pointer, memory_address, Template, templates, register_count, is_register,
}

abbrev pub constant_token : ℕ → ArgToken
constant_token c = record no_token { is_constant = true; constant = c }

unfoldable pub pointer_token : CodePointer → ArgToken
pointer_token p =
    if p.is_symbol
    then record no_token { is_symbol = true; symbol = p.symbol }
    else constant_token p.constant

-- A pointer of the other kind sends the loop to the next template (`continue TemplateLoop`).
unfoldable pub render_pointer : Bool → CodePointer → Option ArgToken
unfolding pointer_token
render_pointer absolute p =
    if not (bool_eq p.absolute absolute) then none else some (pointer_token p)

-- the switch on an argument; `RegisterCount` keeps `regIndex` in range
unfoldable pub render_argument : ArgumentType → ℕ → Instruction → Option ArgToken
unfolding render_pointer
render_argument register reg_index i =
    some (record no_token { is_register = true; register = get_or i.registers reg_index 0 })
render_argument signed_constant16 reg_index i = some (constant_token (sext16 i.signed_constant16))
render_argument unsigned_constant16 reg_index i = some (constant_token i.unsigned_constant16)
render_argument constant5 reg_index i = some (constant_token i.constant5)
render_argument absolute_code_pointer reg_index i = render_pointer true i.code_pointer
render_argument relative_code_pointer reg_index i = render_pointer false i.code_pointer
render_argument memory_address reg_index i = some (record no_token {
  is_memory = true;
  mem_offset = i.memory_reference.offset;
  mem_register = i.memory_reference.register;
})

abbrev pub cons_token : Option ArgToken → Option (List ArgToken) → Option (List ArgToken)
cons_token (some t) (some ts) = some (t ∷ ts)
cons_token _ _ = none

unfoldable pub render_arguments : List ArgumentType → ℕ → Instruction → Option (List ArgToken)
unfolding render_argument is_register
render_arguments [] reg_index i = some []
render_arguments (a ∷ as') reg_index i =
    cons_token (render_argument a reg_index i)
      (render_arguments as' (if is_register a then reg_index + 1 else reg_index) i)

unfoldable pub instruction_line : String → List ArgToken → TokenizedLine
instruction_line n ts = record no_line { instruction = some (record { name = n; arguments = ts }) }

-- the loop over the templates, with `found`
unfoldable pub render_from : Bool → List Template → Instruction → Result TokenizedLine
unfolding render_arguments register_count instruction_line
render_from found [] i =
    if found then err (invalid_arguments i.name) else err (no_such_instruction i.name)
render_from found (template ∷ rest) i =
    let same_name = str_eq template.name i.name in
    let other = render_from (if same_name then true else found) rest i in
    if not same_name
    then other
    else if not (register_count template.arguments == length i.registers)
    then other
    else elim (render_arguments template.arguments 0 i) [
      | none ↦ other
      | some ts ↦ ok (instruction_line i.name ts)
    ]

unfoldable pub render : Instruction → Result TokenizedLine
unfolding render_from templates
render i =
    if str_eq i.name ".word"
    then ok (record no_line { directive = some (record { name = "word"; constant = i.raw_word }) })
    else render_from false templates i
