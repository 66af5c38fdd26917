-- ===== src/Executable/Rewritten.antt =====
-- An executable that is rendered: its lines place instructions with the same encoding.
use mathlib.Core.Logic.{◌⊎◌}
use mips.Prelude.{ℕ, ◌^◌, ◌<◌, ◌≡◌, List, [], ◌∷◌, ◌++◌}
use mips.Isa.{Instruction, Result, ok, add32}
use mips.Coding.Target.{SymbolTable}
use mips.Coding.Decode.{decode_instruction}
use mips.Coding.Encode.{encode}
use mips.Assembly.Token.{TokenizedInstruction}
use mips.Assembly.Parse.{parse_tokenized_instruction}
use mips.Assembly.Reassembly.Reads.{Reads}
use mips.Executable.Image.{Executable, Segments}
use mips.Executable.Parse.{segment_at}
use mips.Executable.Render.{Rendering}

-- what a 32-bit word is decoded as
pub record IsDecoded (i : Instruction) : Type 0 where
  pub word : ℕ
  pub word-lt : word < 2 ^ 32
  pub decoded : i ≡ decode_instruction word

-- what `ParseTokenizedInstruction` makes of tokens
pub record IsParsed (i : Instruction) : Type 0 where
  pub tokens : TokenizedInstruction
  pub parsed : parse_tokenized_instruction tokens ≡ ok i

-- an instruction as `ParseExecutable` places it
abbrev pub IsReadable : Instruction → Type 0
IsReadable i = IsDecoded i ⊎ IsParsed i

-- the instructions of a segment from an address on
abbrev pub instructions_from : ℕ → List Instruction → List (ℕ × Instruction)
instructions_from addr [] = []
instructions_from addr (i ∷ rest) = (addr, i) ∷ instructions_from (add32 addr 4) rest

-- the instructions of an executable with their addresses, segment by segment
abbrev pub instructions_at : List ℕ → Segments → List (ℕ × Instruction)
instructions_at [] segs = []
instructions_at (a ∷ rest) segs =
    instructions_from a (segment_at a segs) ++ instructions_at rest segs

-- what `Encode` gives at each address
abbrev pub encodings : SymbolTable → List (ℕ × Instruction) → List (ℕ × Result ℕ)
encodings symbols [] = []
encodings symbols ((a, i) ∷ rest) = (a, encode i a symbols) ∷ encodings symbols rest

-- the address after the instruction is among the lowest 2 ^ 28
abbrev pub IsNear : ℕ × Instruction → Type 0
IsNear x = add32 x.0 4 < 2 ^ 28
