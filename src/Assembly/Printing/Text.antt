-- ===== src/Assembly/Printing/Text.antt =====
-- `String` of the lines, directives and instructions of lexer.go.
use mips.Prelude.{String, List, [], ◌∷◌, Option, none, some, if◌then◌else◌}
use mips.Assembly.Token.{
  ArgToken, TokenizedInstruction, TokenizedDirective, TokenizedLine, register_of,
  unsigned_constant16_of, signed_constant16_of, constant5_of, relative_code_pointer_of,
  absolute_code_pointer_of, memory_reference_of,
}
use mips.Assembly.Template.{
  ArgumentType, register, signed_constant16, unsigned_constant16, constant5, absolute_code_pointer,
  relative_code_pointer, memory_address, Template, templates, match,
}
use mips.Assembly.Printing.Numerals.{
  ◌+++◌, format_uint, unsigned_const32_to_string, signed_const32_to_string, register_to_string,
  signed_const16_to_string, unsigned_const16_to_string,
}

unfoldable pub directive_string : TokenizedDirective → String
unfolding ◌+++◌ unsigned_const32_to_string
directive_string t = "." +++ t.name +++ " " +++ unsigned_const32_to_string t.constant

-- the switch on an argument
unfoldable pub argument_string : ArgumentType → ArgToken → String
unfolding ◌+++◌ unsigned_const32_to_string signed_const32_to_string register_to_string
    signed_const16_to_string unsigned_const16_to_string register_of unsigned_constant16_of
    signed_constant16_of constant5_of relative_code_pointer_of absolute_code_pointer_of
    memory_reference_of
argument_string register t = register_to_string (register_of t).0
argument_string signed_constant16 t = signed_const16_to_string (signed_constant16_of t).0
argument_string unsigned_constant16 t = unsigned_const16_to_string (unsigned_constant16_of t).0
argument_string constant5 t = format_uint 10 (constant5_of t).0
argument_string absolute_code_pointer t =
    let ptr = (absolute_code_pointer_of t).0 in
    if ptr.is_symbol then ptr.symbol else unsigned_const32_to_string ptr.constant
argument_string relative_code_pointer t =
    let ptr = (relative_code_pointer_of t).0 in
    if ptr.is_symbol then ptr.symbol else signed_const32_to_string ptr.constant
argument_string memory_address t =
    let ref = (memory_reference_of t).0 in
    signed_const16_to_string ref.offset +++ "(" +++ register_to_string ref.register +++ ")"

-- the loop over the arguments of a template that matches: the lists have one length
unfoldable pub argument_strings : List ArgumentType → List ArgToken → List String
unfolding argument_string
argument_strings (arg ∷ args) (tok_arg ∷ tok_args) =
    argument_string arg tok_arg ∷ argument_strings args tok_args
argument_strings _ _ = []

-- strings.Join(strs, ", ")
unfoldable pub join : List String → String
unfolding ◌+++◌
join [] = ""
join (s ∷ []) = s
join (s ∷ t ∷ strs) = s +++ ", " +++ join (t ∷ strs)

unfoldable pub call_string : String → List String → String
unfolding ◌+++◌ join
call_string n [] = n
call_string n (s ∷ strs) = n +++ " " +++ join (s ∷ strs)

-- the loop over the templates
unfoldable pub instruction_string_from : List Template → TokenizedInstruction → String
unfolding ◌+++◌ match argument_strings call_string
instruction_string_from [] t = t.name +++ " # UNRECOGNIZED INSTRUCTION."
instruction_string_from (template ∷ rest) t =
    let other = instruction_string_from rest t in
    if match template t
    then call_string t.name (argument_strings template.arguments t.arguments)
    else other

unfoldable pub instruction_string : TokenizedInstruction → String
unfolding instruction_string_from templates
instruction_string t = instruction_string_from templates t

unfoldable pub comment_string : Option String → String
unfolding ◌+++◌
comment_string none = ""
comment_string (some comment) = " #" +++ comment

-- a comment without the space before it
abbrev pub behind_space : String → String
behind_space String.[] = ""
behind_space (String.◌∷◌ c s) = s

unfoldable pub line_string : TokenizedLine → String
unfolding ◌+++◌ directive_string instruction_string comment_string
line_string l = elim l.directive [
  | some d ↦ directive_string d +++ comment_string l.comment
  | none ↦ elim l.instruction [
    | some i ↦ instruction_string i +++ comment_string l.comment
    | none ↦ elim l.symbol_marker [
      | some sym ↦ sym +++ ":" +++ comment_string l.comment
      | none ↦ behind_space (comment_string l.comment)
    ]
  ]
]
