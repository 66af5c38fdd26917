-- ===== src/Executable/Parse.antt =====
-- `ParseExecutable` up to the joining of segments. The locals of the function, with `res`, are a
-- `Building`.
use mips.Prelude.{
  ℕ, String, List, [], ◌∷◌, ◌++◌, Option, none, some, not, bit_and, ◌==◌, str_eq, if◌then◌else◌,
  lookup, insert, lookup_str, insert_str,
}
use mips.Isa.{
  Instruction, Result, ok, err, panic, ◌>>=◌, overwriting, misaligned_segment, unknown_directive,
  repeated_symbol, on_line, add32,
}
use mips.Coding.Target.{SymbolTable}
use mips.Coding.Decode.{decode_instruction}
use mips.Assembly.Token.{TokenizedLine, TokenizedDirective, TokenizedInstruction}
use mips.Assembly.Parse.{parse_tokenized_instruction}
use mips.Executable.Image.{Segments, address_in_use}

pub record Building : Type 0 where
  pub segments : Segments
  pub symbols : SymbolTable
  pub segment_start : ℕ
  pub instruction_addr : ℕ

abbrev pub nothing_built : Building
nothing_built = record { segments = []; symbols = []; segment_start = 0; instruction_addr = 0 }

-- `m[k]` of a map of slices: a missing key gives the nil slice
abbrev pub instructions_of : Option (List Instruction) → List Instruction
instructions_of none = []
instructions_of (some insts) = insts

abbrev pub segment_at : ℕ → Segments → List Instruction
segment_at start segs = instructions_of (lookup start segs)

-- res.Segments[segmentStart] = append(res.Segments[segmentStart], inst); instructionAddr += 4
unfoldable pub append_instruction : Instruction → Building → Building
append_instruction inst b = record b {
  segments = insert b.segment_start (segment_at b.segment_start b.segments ++ inst ∷ []) b.segments;
  instruction_addr = add32 b.instruction_addr 4;
}

unfoldable pub place : ℕ → Instruction → Building → Result Building
unfolding append_instruction address_in_use
place line_number inst b =
    if address_in_use b.segments b.instruction_addr
    then err (on_line line_number (overwriting b.instruction_addr))
    else ok (append_instruction inst b)

-- an error of `ParseTokenizedInstruction` is given the line's number
abbrev pub numbered : ℕ → Result Instruction → Result Instruction
numbered line_number (ok inst) = ok inst
numbered line_number (err e) = err (on_line line_number e)
numbered line_number panic = panic

unfoldable pub parse_instruction_line : ℕ → TokenizedInstruction → Building → Result Building
unfolding place
parse_instruction_line line_number t b = do
  parsed ← numbered line_number (parse_tokenized_instruction t)
  place line_number parsed b

unfoldable pub parse_directive_line : ℕ → TokenizedDirective → Building → Result Building
unfolding place
parse_directive_line line_number dir b =
    if str_eq dir.name "word"
    then place line_number (decode_instruction dir.constant) b
    else if str_eq dir.name "text"
    then if not (bit_and dir.constant 3 == 0)
      then err (on_line line_number misaligned_segment)
      else ok (record b { segment_start = dir.constant; instruction_addr = dir.constant })
    else err (on_line line_number (unknown_directive dir.name))

unfoldable pub parse_symbol_line : ℕ → String → Building → Result Building
parse_symbol_line line_number sym b = elim (lookup_str sym b.symbols) [
  | some _ ↦ err (on_line line_number (repeated_symbol sym))
  | none ↦ ok (record b { symbols = insert_str sym b.instruction_addr b.symbols })
]

-- the body of the loop over the lines
unfoldable pub parse_line : TokenizedLine → Building → Result Building
unfolding parse_instruction_line parse_directive_line parse_symbol_line
parse_line line b = elim line.instruction [
  | some t ↦ parse_instruction_line line.line_number t b
  | none ↦ elim line.directive [
    | some dir ↦ parse_directive_line line.line_number dir b
    | none ↦ elim line.symbol_marker [
      | some sym ↦ parse_symbol_line line.line_number sym b
      | none ↦ ok b
    ]
  ]
]

unfoldable pub parse_lines : List TokenizedLine → Building → Result Building
unfolding parse_line
parse_lines [] b = ok b
parse_lines (line ∷ rest) b = do next ← parse_line line b; parse_lines rest next
