-- ===== src/Executable/Source.antt =====
-- What a source means, without segments: a flat list of addressed instructions, and of labels.
use mips.Prelude.{ℕ, String, List, [], ◌∷◌, Option, none, some, str_eq, if◌then◌else◌, ◌%◌, ◌==◌}
use mips.Isa.{Instruction, Result, ok, err, Error, misaligned_segment, unknown_directive, add32}
use mips.Assembly.Parse.{parse_tokenized_instruction}
use mips.Coding.Target.{SymbolTable}
use mips.Assembly.Token.{TokenizedLine, TokenizedDirective}
use mips.Assembly.Lines.{line_instruction}

abbrev pub directive_origin : TokenizedDirective → Option ℕ
directive_origin dir = if str_eq dir.name "text" then some dir.constant else none

-- the address that a `.text` line names
abbrev pub line_origin : TokenizedLine → Option ℕ
line_origin line = elim line.instruction [
  | some _ ↦ none
  | none ↦ elim line.directive [ some dir ↦ directive_origin dir | none ↦ none ]
]

-- the label that a line without instruction or directive declares
abbrev pub line_label : TokenizedLine → Option String
line_label line = elim line.instruction [
  | some _ ↦ none
  | none ↦ elim line.directive [ some _ ↦ none | none ↦ line.symbol_marker ]
]

abbrev pub instruction_in : Option (Result Instruction) → Option Instruction
instruction_in (some (ok i)) = some i
instruction_in _ = none

-- Where the word after a line goes: an instruction takes four bytes, `.text` names the address.
abbrev pub address_after : TokenizedLine → ℕ → ℕ
address_after line addr = elim (instruction_in (line_instruction line)) [
  | some _ ↦ add32 addr 4
  | none ↦ elim (line_origin line) [ some c ↦ c | none ↦ addr ]
]

abbrev pub with_word : Option Instruction → ℕ → List (ℕ × Instruction) → List (ℕ × Instruction)
with_word (some i) addr rest = (addr, i) ∷ rest
with_word none addr rest = rest

-- each instruction of the source with its address, in the source's order
unfoldable pub image : List TokenizedLine → ℕ → List (ℕ × Instruction)
unfolding line_instruction
image [] addr = []
image (line ∷ rest) addr =
    with_word (instruction_in (line_instruction line)) addr (image rest (address_after line addr))

abbrev pub with_label : Option String → ℕ → SymbolTable → SymbolTable
with_label (some sym) addr rest = (sym, addr) ∷ rest
with_label none addr rest = rest

-- where the word after the lines would go
abbrev pub address_behind : List TokenizedLine → ℕ → ℕ
address_behind [] addr = addr
address_behind (line ∷ rest) addr = address_behind rest (address_after line addr)

abbrev pub error_in : Result Instruction → Option Error
error_in (err e) = some e
error_in _ = none

abbrev pub directive_fault : TokenizedDirective → Option Error
directive_fault dir =
    if str_eq dir.name "word"
    then none
    else if str_eq dir.name "text"
    then (if dir.constant % 4 == 0 then none else some misaligned_segment)
    else some (unknown_directive dir.name)

-- what is wrong with a line, whatever stands above it
unfoldable pub line_fault : TokenizedLine → Option Error
line_fault line = elim line.instruction [
  | some t ↦ error_in (parse_tokenized_instruction t)
  | none ↦ elim line.directive [ some dir ↦ directive_fault dir | none ↦ none ]
]

-- each label of the source with the address where the next word would go at its line
unfoldable pub labels : List TokenizedLine → ℕ → SymbolTable
unfolding line_instruction
labels [] addr = []
labels (line ∷ rest) addr =
    with_label (line_label line) addr (labels rest (address_after line addr))
