-- ===== src/Assembly/Lines.antt =====
-- The instruction of a line, as `ParseExecutable` takes it; its checks on addresses are not here.
use mips.Prelude.{Option, none, some, str_eq, if◌then◌else◌}
use mips.Isa.{Instruction, Result, ok}
use mips.Coding.Decode.{decode_instruction}
use mips.Assembly.Token.{TokenizedLine, TokenizedDirective}
use mips.Assembly.Parse.{parse_tokenized_instruction}

-- `none` for a line that holds no instruction
unfoldable pub directive_instruction : TokenizedDirective → Option (Result Instruction)
directive_instruction dir =
    if str_eq dir.name "word" then some (ok (decode_instruction dir.constant)) else none

unfoldable pub line_instruction : TokenizedLine → Option (Result Instruction)
unfolding directive_instruction
line_instruction line = elim line.instruction [
  | some t ↦ some (parse_tokenized_instruction t)
  | none ↦ elim line.directive [ some dir ↦ directive_instruction dir | none ↦ none ]
]
