-- ===== src/Examples/Sources.antt =====
-- Two sources, and the theorems on executables at them.
use mips.Prelude.{true, ℕ, ◌≡◌, refl, List, [], ◌∷◌, some, arith, All, lookup, lookup_str}
use mips.Isa.{Instruction, instruction, ok, err, on_line, overwriting}
use mips.Coding.Decode.{decode_instruction}
use mips.Assembly.Token.{TokenizedLine, TokenizedInstruction, no_line, no_token}
use mips.Assembly.Render.{render, constant_token}
use mips.Executable.Render.{text_line, marker_line, render_executable}
use mips.Assembly.Parse.{parse_tokenized_instruction}
use mips.Assembly.Lines.{line_instruction}
use mips.Assembly.Reassembly.Parsed.{render-parse_tokenized_instruction}
use mips.Executable.Image.{Executable, Segments}
use mips.Executable.Image
use mips.Executable.Join.{sorted_segment_addresses, parse_executable, join_contiguous_segments}
use mips.Executable.Ranges.{word_of}
use mips.Executable.Joining.{IsLaidOut}
use mips.Executable.Source.{image, labels, line_fault}
use mips.Executable.Refines.{HasRoom, get-parse_executable}
use mips.Executable.Labels.{symbols-parse_executable}
use mips.Executable.Verdict.{Verdict, parse_executable-Verdict}
use mips.Executable.Acceptance.{parse_executable-accepts}

abbrev add_one : Instruction
add_one = record (instruction "ADDIU" (1 ∷ 1 ∷ [])) { signed_constant16 = 1 }

abbrev nop : Instruction
nop = instruction "NOP" []

-- .text 0x400000; loop: ; .word 0x28affff6; NOP; .text 0; .word 0
abbrev text_at : ℕ → ℕ → TokenizedLine
text_at n c = record no_line {
  line_number = n;
  directive = some (record { name = "text"; constant = c });
}

abbrev pub word_at : ℕ → ℕ → TokenizedLine
word_at n c = record no_line {
  line_number = n;
  directive = some (record { name = "word"; constant = c });
}

abbrev source : List TokenizedLine
source =
    text_at 1 0x400000
    ∷ record no_line { line_number = 2; symbol_marker = some "loop" }
    ∷ word_at 3 0x28affff6
    ∷ record no_line {
      line_number = 4;
      instruction = some (record { name = "NOP"; arguments = [] });
    }
    ∷ text_at 5 0
    ∷ word_at 6 0
    ∷ []

-- the segments before they are joined, and three words in a row
abbrev pieces : Segments
pieces = (0x400000, add_one ∷ nop ∷ []) ∷ (0x400008, nop ∷ []) ∷ (0, add_one ∷ []) ∷ []

abbrev assembled : Executable
assembled = record {
  segments =
      (0x400000, decode_instruction 0x28affff6 ∷ nop ∷ []) ∷ (0, decode_instruction 0 ∷ []) ∷ [];
  symbols = ("loop", 0x400000) ∷ [];
}

source-assembled : parse_executable source ≡ ok assembled
unfolding parse_executable parse_tokenized_instruction
source-assembled = refl

source-HasRoom : All HasRoom (image source 0)
unfolding image parse_tokenized_instruction
source-HasRoom = (omega arith, (omega arith, (omega arith, tt)))

parse_executable-accepts_example : (exe : Executable) × (parse_executable source ≡ ok exe)
unfolding image labels line_fault parse_tokenized_instruction
parse_executable-accepts_example =
    parse_executable-accepts source (refl, (refl, (refl, (refl, (refl, (refl, tt))))))
      source-HasRoom (refl, (refl, (refl, tt))) (refl, tt)

get-parse_executable_example :
    IsLaidOut assembled.segments
    × ((addr : ℕ) → Image.get assembled addr ≡ lookup (word_of addr) (image source 0))
get-parse_executable_example = get-parse_executable source assembled source-assembled source-HasRoom

symbols-parse_executable_example :
    lookup_str "loop" assembled.symbols ≡ lookup_str "loop" (labels source 0)
symbols-parse_executable_example = symbols-parse_executable source assembled source-assembled "loop"

-- a second word at the address 0
abbrev clashing : List TokenizedLine
clashing = word_at 1 7 ∷ text_at 2 0 ∷ word_at 3 8 ∷ []

parse_executable-Verdict_example : Verdict clashing (parse_executable clashing)
unfolding image
parse_executable-Verdict_example =
    parse_executable-Verdict clashing (omega arith, (omega arith, tt))

clashing_error : parse_executable clashing ≡ err (on_line 3 (overwriting 0))
unfolding parse_executable
clashing_error = refl

-- of three contiguous segments the first two are joined
pieces_joined :
    join_contiguous_segments ((0, add_one ∷ []) ∷ (4, nop ∷ []) ∷ (8, nop ∷ []) ∷ [])
    ≡ (0, add_one ∷ nop ∷ []) ∷ (8, nop ∷ []) ∷ []
unfolding join_contiguous_segments
pieces_joined = refl

-- J loop
abbrev jump_loop : Instruction
jump_loop = record (instruction "J" []) {
  code_pointer = record { absolute = true; is_symbol = true; symbol = "loop"; constant = 0 };
}

abbrev jump_tokens : TokenizedInstruction
jump_tokens = record {
  name = "J";
  arguments = record no_token { is_symbol = true; symbol = "loop" } ∷ [];
}

jump_loop-parsed : parse_tokenized_instruction jump_tokens ≡ ok jump_loop
unfolding parse_tokenized_instruction
jump_loop-parsed = refl

-- an executable with two segments, and its rendering
abbrev two_segments : Executable
two_segments = record {
  segments =
      (0x400000, decode_instruction 0x28affff6 ∷ decode_instruction 0 ∷ [])
      ∷ (0, jump_loop ∷ [])
      ∷ [];
  symbols = ("loop", 0x400004) ∷ ("start", 0) ∷ [];
}

render-parse_tokenized_instruction_example :
    (line : TokenizedLine) × (render jump_loop ≡ ok line)
    × (line_instruction line ≡ some (ok jump_loop))
render-parse_tokenized_instruction_example =
    render-parse_tokenized_instruction jump_tokens jump_loop jump_loop-parsed

-- the lines of the rendering
abbrev two_segments_lines : List TokenizedLine
two_segments_lines =
    marker_line "start"
    ∷ record no_line { instruction = some jump_tokens }
    ∷ text_line 0x400000
    ∷ record no_line {
      instruction = some (record {
        name = "SLTI";
        arguments =
            record no_token { is_register = true; register = 15 }
            ∷ record no_token { is_register = true; register = 5 }
            ∷ constant_token 0xffff_fff6
            ∷ [];
      });
    }
    ∷ marker_line "loop"
    ∷ record no_line { instruction = some (record { name = "NOP"; arguments = [] }) }
    ∷ []

two_segments-rendered : render_executable two_segments ≡ ok two_segments_lines
unfolding render_executable render decode_instruction sorted_segment_addresses
two_segments-rendered = refl

-- the pieces as a map, and as the same map in another order
abbrev as_executable : Segments → Executable
as_executable segs = record { segments = segs; symbols = [] }

abbrev other_pieces : Segments
other_pieces = (0x400008, nop ∷ []) ∷ (0x400000, add_one ∷ nop ∷ []) ∷ (0, add_one ∷ []) ∷ []
