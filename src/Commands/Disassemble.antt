-- ===== src/Commands/Disassemble.antt =====
-- mips-disas/main.go: the words of a file, and the lines that they are rendered as. The command
-- rejects a file whose length is no multiple of 4; it then stops before it renders anything.
use mips.Prelude.{
  ℕ, List, [], ◌∷◌, Bool, Option, none, some, not, ◌==◌, bit_or, bit_and, length, if◌then◌else◌,
}
use mips.Isa.{Instruction, Result, ok, ◌>>=◌, ◌<<◌}
use mips.Coding.Decode.{decode_instruction}
use mips.Assembly.Token.{TokenizedLine}
use mips.Assembly.Render.{render}

unfoldable pub word_of_bytes : Bool → ℕ → ℕ → ℕ → ℕ → ℕ
word_of_bytes little_endian b0 b1 b2 b3 =
    if little_endian
    then bit_or (bit_or (bit_or b0 (b1 << 8)) (b2 << 16)) (b3 << 24)
    else bit_or (bit_or (bit_or (b0 << 24) (b1 << 16)) (b2 << 8)) b3

-- the first loop; the length is a multiple of 4
unfoldable pub instructions_in : Bool → List ℕ → List Instruction
unfolding word_of_bytes
instructions_in little_endian (b0 ∷ b1 ∷ b2 ∷ b3 ∷ rest) =
    decode_instruction (word_of_bytes little_endian b0 b1 b2 b3)
    ∷ instructions_in little_endian rest
instructions_in little_endian _ = []

-- the second loop
unfoldable pub render_all : List Instruction → Result (List TokenizedLine)
render_all [] = ok []
render_all (inst ∷ rest) = do
  rendering ← render inst
  renderings ← render_all rest
  ok (rendering ∷ renderings)

-- `none` for a file of invalid length
unfoldable pub disassemble : Bool → List ℕ → Option (Result (List TokenizedLine))
unfolding instructions_in render_all
disassemble little_endian binary =
    if not (bit_and (length binary) 3 == 0)
    then none
    else some (render_all (instructions_in little_endian binary))
