-- ===== src/Assembly/Reassembly/Accepted.antt =====
-- The tokens that a template accepts, and what is asked of an instruction that is filled from them.
use mips.Prelude.{
  ℕ, ◌≡◌, String, List, [], ◌∷◌, Bool, true, arith, length, some, bit_and, ◌==◌, inl, inr,
  Bool-cases,
}
use mips.Isa.{Instruction, instruction, CodePointer, no_pointer, ok, u16, sext16, ◌<<◌, ◌>>>◌}
use mips.Assembly.Token.{
  ArgToken, TokenizedLine, relative_code_pointer_of, absolute_code_pointer_of,
}
use mips.Assembly.Template.{Template, accepts_all}
use mips.Assembly.Parse.{fill_all}
use mips.Assembly.Render.{render}
use mips.Assembly.Lines.{line_instruction}

-- The line that an instruction is rendered as is read as the instruction.
abbrev pub Rereads : Instruction → Type 0
Rereads i = (line : TokenizedLine) × (render i ≡ ok line) × (line_instruction line ≡ some (ok i))

-- whatever tokens a template accepts
abbrev pub Parsed : Template → Type 0
Parsed t =
    (ts : List ArgToken)
    → length t.arguments ≡ length ts
    → accepts_all t.arguments ts ≡ true
    → Rereads (fill_all t.arguments ts (instruction t.name []))

module _ (Q : List ArgToken → Type 0) where
  pub no_tokens : Q [] → (ts : List ArgToken) → 0 ≡ length ts → Q ts
  no_tokens q [] h = q
  no_tokens q (a ∷ ts) h = absurd (omega (arith, h))

  pub one_token : ((a : ArgToken) → Q (a ∷ [])) → (ts : List ArgToken) → 1 ≡ length ts → Q ts
  one_token q [] h = absurd (omega (arith, h))
  one_token q (a ∷ []) h = q a
  one_token q (a ∷ b ∷ ts) h = absurd (omega (arith, h))

  pub two_tokens : ((a b : ArgToken) → Q (a ∷ b ∷ [])) → (ts : List ArgToken) → 2 ≡ length ts → Q ts
  two_tokens q [] h = absurd (omega (arith, h))
  two_tokens q (a ∷ []) h = absurd (omega (arith, h))
  two_tokens q (a ∷ b ∷ []) h = q a b
  two_tokens q (a ∷ b ∷ c ∷ ts) h = absurd (omega (arith, h))

  pub three_tokens :
      ((a b c : ArgToken) → Q (a ∷ b ∷ c ∷ [])) → (ts : List ArgToken) → 3 ≡ length ts → Q ts
  three_tokens q [] h = absurd (omega (arith, h))
  three_tokens q (a ∷ []) h = absurd (omega (arith, h))
  three_tokens q (a ∷ b ∷ []) h = absurd (omega (arith, h))
  three_tokens q (a ∷ b ∷ c ∷ []) h = q a b c
  three_tokens q (a ∷ b ∷ c ∷ d ∷ ts) h = absurd (omega (arith, h))

pub absolute_cases :
    (F : CodePointer → Instruction) (t : ArgToken)
    → (absolute_code_pointer_of t).1 ≡ true
    → ((c : ℕ) → Rereads (F (record no_pointer { absolute = true; constant = c })))
    → ((s : String)
        → Rereads (F (record no_pointer { absolute = true; is_symbol = true; symbol = s })))
    → Rereads (F (absolute_code_pointer_of t).0)
unfolding absolute_code_pointer_of
absolute_cases F t h by_constant by_symbol = elim (Bool-cases t.is_constant) [
  | inl number ↦ rw (number, absolute_code_pointer_of) (by_constant t.constant)
  | inr other ↦ elim (Bool-cases t.is_symbol) [
    | inl named ↦ rw (other, named, absolute_code_pointer_of) (by_symbol t.symbol)
    | inr neither ↦ let q = rw (other, neither, absolute_code_pointer_of) at h in absurd (cc)
  ]
]

-- what a branch can reach
abbrev pub reachable : ℕ → Bool
reachable c = sext16 (u16 (c >>> 2)) << 2 == bit_and c 0xfffffffc

pub relative_cases :
    (F : CodePointer → Instruction) (t : ArgToken)
    → (relative_code_pointer_of t).1 ≡ true
    → ((c : ℕ) → reachable c ≡ true → Rereads (F (record no_pointer { constant = c })))
    → ((s : String) → Rereads (F (record no_pointer { is_symbol = true; symbol = s })))
    → Rereads (F (relative_code_pointer_of t).0)
unfolding relative_code_pointer_of
relative_cases F t h by_constant by_symbol = elim (Bool-cases t.is_constant) [
  | inl number ↦ elim (Bool-cases (reachable t.constant)) [
    | inl near ↦ rw (number, near, relative_code_pointer_of) (by_constant t.constant near)
    | inr far ↦ let q = rw (number, far, relative_code_pointer_of) at h in absurd (cc)
  ]
  | inr other ↦ elim (Bool-cases t.is_symbol) [
    | inl named ↦ rw (other, named, relative_code_pointer_of) (by_symbol t.symbol)
    | inr neither ↦ let q = rw (other, neither, relative_code_pointer_of) at h in absurd (cc)
  ]
]
