-- ===== src/Assembly/Printing/Rendered.antt =====
-- The line that a decoded instruction is rendered as, printed.
use mips.Prelude.{
  ℕ, zero, suc, ◌+◌, ◌^◌, ◌<◌, ◌≡◌, refl, sym, subst, String, List, [], ◌∷◌, some, Bool, true,
  false, not, ◌||◌, arith, if◌then◌else◌, bool_eq, str_eq, length, get_or, All, inl, inr,
  Bool-cases, Option-cases, ◌==◌,
}
use mathlib.Core.Option.{some-injective}
use mips.Isa.{Instruction, instruction, ok, ok-injective, sext16}
use mips.Coding.Tables.{
  two_operand_immediate_opcodes, j_type_opcodes, memory_opcodes, constant_shift_funcs,
  variable_shift_funcs, three_reg_operand_funcs,
}
use mips.Coding.Decode.{
  Fields, fields, immediate_instruction, lui_instruction, branch_instruction, jump_instruction,
  memory_instruction, constant_shift_instruction, variable_shift_instruction,
  three_registers_instruction, word_directive, decode_instruction,
}
use mips.Coding.Families.{Families, decode_fields-all}
use mips.Coding.RoundTrip.Layout.{FieldsOf, fields-FieldsOf}
use mips.Assembly.Token.{ArgToken, TokenizedInstruction, TokenizedLine}
use mips.Assembly.Template.{
  ArgumentType, register, signed_constant16, unsigned_constant16, constant5, absolute_code_pointer,
  relative_code_pointer, memory_address, Template, templates, match, is_register, register_count,
}
use mips.Assembly.Parse.{parse_from, parse_tokenized_instruction}
use mips.Assembly.Lines.{line_instruction}
use mips.Assembly.Render.{
  render_argument, render_arguments, render_pointer, pointer_token, instruction_line, render_from,
  render,
}
use mips.Assembly.Printing.Arguments.{Reprints, register_token-Reprints, constant_token-Reprints}
use mips.Assembly.Printing.Memory.{memory_token-Reprints}
use mips.Assembly.Printing.Calls.{is_recognized}
use mips.Assembly.Printing.Lines.{Printed, directive-Printed, instruction-Printed}

-- The fields of a decoded instruction are within the bounds of their types.
record Bounded (i : Instruction) : Type 0 where
  registers-lt : All (λ r. r < 32) i.registers
  unsigned-lt : i.unsigned_constant16 < 2 ^ 16
  signed-lt : i.signed_constant16 < 2 ^ 16
  constant5-lt : i.constant5 < 32
  no_symbol : i.code_pointer.is_symbol ≡ false
  pointer-lt : i.code_pointer.constant < 2 ^ 32
  base-lt : i.memory_reference.register < 32
  offset-lt : i.memory_reference.offset < 2 ^ 16
  word-lt : i.raw_word < 2 ^ 32

fields-Families : (w : ℕ) (f : Fields) → w < 2 ^ 32 → FieldsOf w f → Families Bounded w f
unfolding immediate_instruction lui_instruction branch_instruction jump_instruction
    memory_instruction constant_shift_instruction variable_shift_instruction
    three_registers_instruction word_directive two_operand_immediate_opcodes j_type_opcodes
    memory_opcodes constant_shift_funcs variable_shift_funcs three_reg_operand_funcs
fields-Families w f h of = ground arith

nop-Bounded : Bounded (instruction "NOP" [])
nop-Bounded = ground arith

decode_instruction-Bounded : (w : ℕ) → w < 2 ^ 32 → Bounded (decode_instruction w)
unfolding decode_instruction
decode_instruction-Bounded w h = elim (Bool-cases (w == 0)) [
  | inl no_word ↦ rw no_word nop-Bounded
  | inr other ↦ rw other (
      decode_fields-all Bounded w (fields w) (fields-Families w (fields w) h (fields-FieldsOf w h)))
]

get_or-lt : (rs : List ℕ) (n : ℕ) → All (λ r. r < 32) rs → get_or rs n 0 < 32
get_or-lt [] n all = omega arith
get_or-lt (r ∷ rs) zero all = all.0
get_or-lt (r ∷ rs) (suc n) all = get_or-lt rs n all.1

module _ (i : Instruction) (b : Bounded i) where
  render_pointer-Reprints :
      (absolute : Bool) (t : ArgToken)
      → render_pointer absolute i.code_pointer ≡ some t
      → Reprints t
  unfolding render_pointer pointer_token
  render_pointer-Reprints absolute t h =
      elim (Bool-cases (not (bool_eq i.code_pointer.absolute absolute))) [
        | inl other ↦ let q = rw other at h in absurd (cc)
        | inr same ↦
            subst Reprints (some-injective _ t (rw b.no_symbol at (rw same at h)))
              (constant_token-Reprints i.code_pointer.constant b.pointer-lt)
      ]

  render_argument-Reprints :
      (a : ArgumentType) (n : ℕ) (t : ArgToken) → render_argument a n i ≡ some t → Reprints t
  unfolding render_argument
  render_argument-Reprints register n t h =
      subst Reprints (some-injective _ t h)
        (register_token-Reprints (get_or i.registers n 0) (get_or-lt i.registers n b.registers-lt))
  render_argument-Reprints signed_constant16 n t h =
      let c-lt : sext16 i.signed_constant16 < 2 ^ 32 = ground (arith, b.signed-lt) in
      subst Reprints (some-injective _ t h)
        (constant_token-Reprints (sext16 i.signed_constant16) c-lt)
  render_argument-Reprints unsigned_constant16 n t h =
      subst Reprints (some-injective _ t h)
        (constant_token-Reprints i.unsigned_constant16 (omega (arith, b.unsigned-lt)))
  render_argument-Reprints constant5 n t h =
      subst Reprints (some-injective _ t h)
        (constant_token-Reprints i.constant5 (omega (arith, b.constant5-lt)))
  render_argument-Reprints absolute_code_pointer n t h = render_pointer-Reprints true t h
  render_argument-Reprints relative_code_pointer n t h = render_pointer-Reprints false t h
  render_argument-Reprints memory_address n t h = subst Reprints (some-injective _ t h) (
      memory_token-Reprints i.memory_reference.offset i.memory_reference.register b.offset-lt
        b.base-lt)

  render_arguments-Reprints :
      (args : List ArgumentType) (n : ℕ) (ts : List ArgToken)
      → render_arguments args n i ≡ some ts
      → All Reprints ts
  unfolding render_arguments
  render_arguments-Reprints [] n ts h = subst (All Reprints) (some-injective [] ts h) tt
  render_arguments-Reprints (a ∷ args) n ts h =
      let next = if is_register a then n + 1 else n in
      elim (Option-cases (render_argument a n i)) [
        | inl absent ↦ let q = rw absent at h in absurd (cc)
        | inr (t, made) ↦ elim (Option-cases (render_arguments args next i)) [
          | inl absent ↦ let q = rw absent at (rw made at h) in absurd (cc)
          | inr (others, more) ↦
              subst (All Reprints) (some-injective (t ∷ others) ts (rw more at (rw made at h))) (
                render_argument-Reprints a n t made,
                render_arguments-Reprints args next others more,
              )
        ]
      ]

  render_from-Reprints :
      (found : Bool) (ts : List Template) (line : TokenizedLine)
      → render_from found ts i ≡ ok line
      → (toks : List ArgToken) × (instruction_line i.name toks ≡ line) × All Reprints toks
  unfolding render_from
  render_from-Reprints true [] line h = absurd (cc)
  render_from-Reprints false [] line h = absurd (cc)
  render_from-Reprints found (template ∷ rest) line h =
      let found_now = if str_eq template.name i.name then true else found in
      elim (Bool-cases (not (str_eq template.name i.name))) [
        | inl other ↦ render_from-Reprints found_now rest line (rw other at h)
        | inr same ↦
            elim (Bool-cases (not (register_count template.arguments == length i.registers))) [
              | inl other ↦ render_from-Reprints found_now rest line (rw other at (rw same at h))
              | inr counted ↦ elim (Option-cases (render_arguments template.arguments 0 i)) [
                | inl absent ↦
                    render_from-Reprints found_now rest line
                      (rw absent at (rw counted at (rw same at h)))
                | inr (toks, made) ↦ (
                  toks,
                  ok-injective _ line (rw made at (rw counted at (rw same at h))),
                  render_arguments-Reprints template.arguments 0 toks made,
                )
              ]
            ]
      ]

-- an instruction that is parsed is of a template
parse_from-is_recognized :
    (valid_name : Bool) (ts : List Template) (t : TokenizedInstruction) (back : Instruction)
    → parse_from valid_name ts t ≡ ok back
    → is_recognized ts t ≡ true
unfolding parse_from is_recognized
parse_from-is_recognized true [] t back h = absurd (cc)
parse_from-is_recognized false [] t back h = absurd (cc)
parse_from-is_recognized valid_name (template ∷ rest) t back h =
    elim (Bool-cases (match template t)) [
      | inl fit ↦ rw fit refl
      | inr other ↦ rw other (
          parse_from-is_recognized (valid_name || str_eq template.name t.name) rest t back
            (rw other at h))
    ]

line-is_recognized :
    (n : String) (toks : List ArgToken) (back : Instruction)
    → line_instruction (instruction_line n toks) ≡ some (ok back)
    → is_recognized templates (record { name = n; arguments = toks }) ≡ true
unfolding line_instruction instruction_line parse_tokenized_instruction
line-is_recognized n toks back h =
    parse_from-is_recognized false templates (record { name = n; arguments = toks }) back
      (some-injective _ _ h)

-- The line that a decoded word is rendered as is printed as a text that is read as the line.
pub decoded-Printed :
    (w : ℕ) (line : TokenizedLine) (back : Instruction)
    → w < 2 ^ 32
    → render (decode_instruction w) ≡ ok line
    → line_instruction line ≡ some (ok back)
    → Printed line
unfolding render instruction_line
decoded-Printed w line back h rendered read =
    let i = decode_instruction w in
    let b = decode_instruction-Bounded w h in
    elim (Bool-cases (str_eq i.name ".word")) [
      | inl word ↦
          subst Printed (ok-injective _ line (rw word at rendered))
            (directive-Printed (record { name = "word"; constant = i.raw_word }) refl b.word-lt)
      | inr other ↦
          let (toks, same, each) =
            render_from-Reprints i b false templates line (rw other at rendered) in
          subst Printed same (
            instruction-Printed (record { name = i.name; arguments = toks })
              (line-is_recognized i.name toks back (rw (sym same) at read)) each)
    ]
