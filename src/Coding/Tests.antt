-- ===== src/Coding/Tests.antt =====
-- Encodings and decodings of the package's own tests, evaluated.
use mips.Prelude.{ℕ, List, [], ◌∷◌, ◌≡◌, refl, map}
use mips.Isa.{Result, ok}
use mips.Coding.Target.{instruction_branch_offset, instruction_jump_base}
use mips.Coding.Decode.{decode_instruction}
use mips.Coding.Encode.{
  encode, immediate_word, three_registers_word, lui_word, constant_shift_word, variable_shift_word,
  jump_word, jalr_word, jr_word, memory_word, nop_word, branch_word,
}

abbrev words : List ℕ
words =
    0x2485ECC9 ∷ 0x03ef3021 ∷ 0x00a1f824 ∷ 0x3051f0f0 ∷ 0x3c05f0f0 ∷ 0x0253880b ∷ 0x0274900a
    ∷ 0x001209c0 ∷ 0x00be1004 ∷ 0x28affff6 ∷ 0x10bfff38 ∷ 0x06218000 ∷ 0x1cc07fff ∷ 0x07e00000
    ∷ 0x08014000 ∷ 0x0c014000 ∷ 0x00402809 ∷ 0x01e0f809 ∷ 0x03e00008 ∷ 0x80afffe2 ∷ 0xacbf7fff
    ∷ 0x00000000 ∷ 0xffffffff ∷ []

round : ℕ → Result ℕ
round w = encode (decode_instruction w) 0 []

round_words : map round words ≡ map ok words
unfolding round encode decode_instruction immediate_word three_registers_word lui_word
    constant_shift_word variable_shift_word jump_word jalr_word jr_word memory_word nop_word
    branch_word instruction_branch_offset instruction_jump_base
round_words = refl
