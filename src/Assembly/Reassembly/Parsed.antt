-- ===== src/Assembly/Reassembly/Parsed.antt =====
-- An instruction that is parsed from tokens, rendered and read again.
use mips.Prelude.{
  ◌≡◌, refl, subst, List, [], ◌∷◌, Bool, true, false, arith, All, length, some, ◌||◌, str_eq,
  eq_iff, inl, inr, Bool-cases,
}
use mips.Bits.Fields.{bit_and_high}
use mips.Isa.{Instruction, instruction, ok, ok-injective, u16}
use mips.Assembly.Token.{TokenizedInstruction, TokenizedLine}
use mips.Assembly.Template.{Template, templates, accepts_all, match}
use mips.Assembly.Parse.{fill_all, parse_from, parse_tokenized_instruction}
use mips.Assembly.Render.{render}
use mips.Assembly.Lines.{line_instruction}
use mips.Assembly.Reassembly.Accepted.{
  Rereads, Parsed, no_tokens, one_token, two_tokens, three_tokens, absolute_cases, relative_cases,
}

-- one more template
abbrev ◌and_for◌ {ℓ κ} : {A : Type ℓ} {B : Type κ} → A → B → A × B
a and_for b = (a, b)

infixr 4 ◌and_for◌
templates-Parsed : All Parsed templates
unfolding templates accepts_all fill_all render line_instruction parse_tokenized_instruction
templates-Parsed =
    (no_tokens _ (λ _. (_, refl, refl)))
    and_for (three_tokens _ (λ a b c h. (_, refl, ground arith)))
    and_for (three_tokens _ (λ a b c _. (_, refl, refl)))
    and_for (three_tokens _ (λ a b c _. (_, refl, refl)))
    and_for (three_tokens _
        (λ a b c h. (_, refl, ground (arith, bit_and_high 16 16 (u16 c.constant)))))
    and_for (three_tokens _ (λ a b c h.
        relative_cases
          (λ p. record (instruction "BEQ" (a.register ∷ b.register ∷ [])) { code_pointer = p }) c
          (ground arith) (λ k near. (_, refl, ground (arith, near))) (λ s. (_, refl, refl))))
    and_for (two_tokens _ (λ a b h.
        relative_cases (λ p. record (instruction "BGEZ" (a.register ∷ [])) { code_pointer = p }) b
          (ground arith) (λ k near. (_, refl, ground (arith, near))) (λ s. (_, refl, refl))))
    and_for (two_tokens _ (λ a b h.
        relative_cases (λ p. record (instruction "BGTZ" (a.register ∷ [])) { code_pointer = p }) b
          (ground arith) (λ k near. (_, refl, ground (arith, near))) (λ s. (_, refl, refl))))
    and_for (two_tokens _ (λ a b h.
        relative_cases (λ p. record (instruction "BLEZ" (a.register ∷ [])) { code_pointer = p }) b
          (ground arith) (λ k near. (_, refl, ground (arith, near))) (λ s. (_, refl, refl))))
    and_for (two_tokens _ (λ a b h.
        relative_cases (λ p. record (instruction "BLTZ" (a.register ∷ [])) { code_pointer = p }) b
          (ground arith) (λ k near. (_, refl, ground (arith, near))) (λ s. (_, refl, refl))))
    and_for (three_tokens _ (λ a b c h.
        relative_cases
          (λ p. record (instruction "BNE" (a.register ∷ b.register ∷ [])) { code_pointer = p }) c
          (ground arith) (λ k near. (_, refl, ground (arith, near))) (λ s. (_, refl, refl))))
    and_for (one_token _ (λ a h.
        absolute_cases (λ p. record (instruction "J" ([])) { code_pointer = p }) a (ground arith)
          (λ k. (_, refl, refl)) (λ s. (_, refl, refl))))
    and_for (one_token _ (λ a h.
        absolute_cases (λ p. record (instruction "JAL" ([])) { code_pointer = p }) a (ground arith)
          (λ k. (_, refl, refl)) (λ s. (_, refl, refl))))
    and_for (one_token _ (λ a _. (_, refl, refl)))
    and_for (two_tokens _ (λ a b _. (_, refl, refl)))
    and_for (one_token _ (λ a _. (_, refl, refl)))
    and_for (two_tokens _ (λ a b _. (_, refl, refl)))
    and_for (two_tokens _ (λ a b _. (_, refl, refl)))
    and_for (two_tokens _ (λ a b _. (_, refl, refl)))
    and_for (two_tokens _ (λ a b _. (_, refl, refl)))
    and_for (two_tokens _ (λ a b _. (_, refl, refl)))
    and_for (two_tokens _ (λ a b h. (_, refl, ground (arith, bit_and_high 16 16 (u16 b.constant)))))
    and_for (three_tokens _ (λ a b c _. (_, refl, refl)))
    and_for (three_tokens _ (λ a b c _. (_, refl, refl)))
    and_for (three_tokens _ (λ a b c _. (_, refl, refl)))
    and_for (three_tokens _ (λ a b c _. (_, refl, refl)))
    and_for (three_tokens _
        (λ a b c h. (_, refl, ground (arith, bit_and_high 16 16 (u16 c.constant)))))
    and_for (three_tokens _ (λ a b c h. (_, refl, ground arith)))
    and_for (three_tokens _ (λ a b c _. (_, refl, refl)))
    and_for (three_tokens _ (λ a b c _. (_, refl, refl)))
    and_for (three_tokens _ (λ a b c h. (_, refl, ground arith)))
    and_for (three_tokens _ (λ a b c h. (_, refl, ground arith)))
    and_for (three_tokens _ (λ a b c _. (_, refl, refl)))
    and_for (three_tokens _ (λ a b c h. (_, refl, ground arith)))
    and_for (three_tokens _ (λ a b c _. (_, refl, refl)))
    and_for (three_tokens _ (λ a b c h. (_, refl, ground arith)))
    and_for (three_tokens _ (λ a b c _. (_, refl, refl)))
    and_for (three_tokens _ (λ a b c _. (_, refl, refl)))
    and_for (three_tokens _ (λ a b c _. (_, refl, refl)))
    and_for (three_tokens _
        (λ a b c h. (_, refl, ground (arith, bit_and_high 16 16 (u16 c.constant)))))
    and_for tt

match_lem :
    (template : Template) (t : TokenizedInstruction)
    → match template t ≡ true
    → (template.name ≡ t.name)
      × (length template.arguments ≡ length t.arguments)
      × (accepts_all template.arguments t.arguments ≡ true)
unfolding match
match_lem template t h =
    (ground (arith, h, eq_iff template.name t.name), ground (arith, h), ground (arith, h))

parse_from-Rereads :
    (valid_name : Bool) (ts : List Template) (t : TokenizedInstruction) (i : Instruction)
    → All Parsed ts
    → parse_from valid_name ts t ≡ ok i
    → Rereads i
unfolding parse_from
parse_from-Rereads valid_name [] t i all h = elim (Bool-cases valid_name) [
  | inl valid ↦ let q = rw valid at h in absurd (cc)
  | inr unknown ↦ let q = rw unknown at h in absurd (cc)
]
parse_from-Rereads valid_name (template ∷ rest) t i all h = elim (Bool-cases (match template t)) [
  | inr other ↦
      parse_from-Rereads (valid_name || str_eq template.name t.name) rest t i all.1 (rw other at h)
  | inl here ↦
      let (named, sized, accepted) = match_lem template t here in
      subst Rereads (ok-injective _ i (rw here at h)) (
        subst (λ n. Rereads (fill_all template.arguments t.arguments (instruction n []))) named
          (all.0 t.arguments sized accepted))
]

-- An instruction that `ParseTokenizedInstruction` makes, from whatever tokens, is rendered as a line
-- without an error, and that line is read as the same instruction, with its registers, constants,
-- memory reference and label or address.
pub render-parse_tokenized_instruction :
    (t : TokenizedInstruction) (i : Instruction)
    → parse_tokenized_instruction t ≡ ok i
    → (line : TokenizedLine) × (render i ≡ ok line) × (line_instruction line ≡ some (ok i))
unfolding parse_tokenized_instruction
render-parse_tokenized_instruction t i h = parse_from-Rereads false templates t i templates-Parsed h
