-- ===== src/Executable/Effect.antt =====
-- What one line does to the executable that is built, if it is accepted.
use mips.Prelude.{
  ℕ, ◌%◌, ◌≡◌, refl, sym, ap, ◌∙◌, String, none, some, false, bit_and, ◌==◌, ==_iff, str_eq, inl,
  inr, subst, Bool-cases, Option-cases, lookup_str, insert_str,
}
use mips.Bits.Fields.{bit_and_mask}
use mips.Isa.{Instruction, ok, ok-injective, Result-cases}
use mips.Coding.Decode.{decode_instruction}
use mips.Assembly.Token.{TokenizedLine, TokenizedDirective, TokenizedInstruction}
use mips.Assembly.Parse.{parse_tokenized_instruction}
use mips.Assembly.Lines.{line_instruction, directive_instruction}
use mips.Executable.Image.{address_in_use}
use mips.Executable.Parse.{
  Building, append_instruction, place, parse_instruction_line, parse_directive_line,
  parse_symbol_line, parse_line,
}
use mips.Executable.Source.{line_origin, line_label}

pub data Effect (line : TokenizedLine) (b : Building) : Building → Type 0 where
  placed :
      (i : Instruction)
      → line_instruction line ≡ some (ok i)
      → line_label line ≡ none
      → address_in_use b.segments b.instruction_addr ≡ false
      → Effect line b (append_instruction i b)
  moved :
      (c : ℕ)
      → line_instruction line ≡ none
      → line_origin line ≡ some c
      → line_label line ≡ none
      → c % 4 ≡ 0
      → Effect line b (record b { segment_start = c; instruction_addr = c })
  labelled :
      (sym : String)
      → line_instruction line ≡ none
      → line_origin line ≡ none
      → line_label line ≡ some sym
      → lookup_str sym b.symbols ≡ none
      → Effect line b (record b { symbols = insert_str sym b.instruction_addr b.symbols })
  kept :
      line_instruction line ≡ none
      → line_origin line ≡ none
      → line_label line ≡ none
      → Effect line b b

place-ok :
    (n : ℕ) (i : Instruction) (b next : Building)
    → place n i b ≡ ok next
    → (address_in_use b.segments b.instruction_addr ≡ false) × (append_instruction i b ≡ next)
unfolding place
place-ok n i b next h = elim (Bool-cases (address_in_use b.segments b.instruction_addr)) [
  | inl used ↦ absurd (cc)
  | inr free ↦ (free, ok-injective _ _ (rw free at h))
]

instruction-Effect :
    (line : TokenizedLine) (b next : Building) (t : TokenizedInstruction)
    → line.instruction ≡ some t
    → parse_instruction_line line.line_number t b ≡ ok next
    → Effect line b next
unfolding parse_instruction_line line_instruction
instruction-Effect line b next t is_inst h = elim (Result-cases (parse_tokenized_instruction t)) [
  | inl (i, parsed) ↦
      let (free, same) = place-ok line.line_number i b next (rw parsed at h) in
      subst (Effect line b) same (placed i (rw is_inst (ap some parsed)) (rw is_inst refl) free)
  | inr (inl (e, failed)) ↦ let q = rw failed at h in absurd (cc)
  | inr (inr failed) ↦ let q = rw failed at h in absurd (cc)
]

directive-Effect :
    (line : TokenizedLine) (b next : Building) (dir : TokenizedDirective)
    → line.instruction ≡ none
    → line.directive ≡ some dir
    → parse_directive_line line.line_number dir b ≡ ok next
    → Effect line b next
unfolding parse_directive_line line_instruction directive_instruction
directive-Effect line b next dir no_inst is_dir h = elim (Bool-cases (str_eq dir.name "word")) [
  | inl word ↦
      let (free, same) =
        place-ok line.line_number (decode_instruction dir.constant) b next (rw word at h) in
      subst (Effect line b) same (
        placed (decode_instruction dir.constant) (rw no_inst (rw is_dir (rw word refl)))
          (rw no_inst (rw is_dir refl)) free)
  | inr no_word ↦ elim (Bool-cases (str_eq dir.name "text")) [
    | inr no_text ↦ let q = rw no_text at (rw no_word at h) in absurd (cc)
    | inl text ↦ elim (Bool-cases (bit_and dir.constant 3 == 0)) [
      | inr odd ↦ let q = rw odd at (rw text at (rw no_word at h)) in absurd (cc)
      | inl even ↦
          subst (Effect line b) (ok-injective _ _ (rw even at (rw text at (rw no_word at h)))) (
            moved dir.constant (rw no_inst (rw is_dir (rw no_word refl)))
              (rw no_inst (rw is_dir (rw text refl))) (rw no_inst (rw is_dir refl))
              (sym (bit_and_mask 2 dir.constant) ∙ (==_iff _ 0).0 even))
    ]
  ]
]

symbol-Effect :
    (line : TokenizedLine) (b next : Building) (name : String)
    → line.instruction ≡ none
    → line.directive ≡ none
    → line.symbol_marker ≡ some name
    → parse_symbol_line line.line_number name b ≡ ok next
    → Effect line b next
unfolding parse_symbol_line line_instruction
symbol-Effect line b next name no_inst no_dir is_label h =
    elim (Option-cases (lookup_str name b.symbols)) [
      | inr (_, present) ↦ let q = rw (present, parse_symbol_line) at h in absurd (cc)
      | inl absent ↦
          subst (Effect line b) (ok-injective _ _ (rw (absent, parse_symbol_line) at h)) (
            labelled name (rw no_inst (rw no_dir refl)) (rw no_inst (rw no_dir refl))
              (rw no_inst (rw no_dir is_label)) absent)
    ]

pub parse_line-Effect :
    (line : TokenizedLine) (b next : Building) → parse_line line b ≡ ok next → Effect line b next
unfolding parse_line line_instruction
parse_line-Effect line b next h = elim (Option-cases line.instruction) [
  | inr (t, is_inst) ↦ instruction-Effect line b next t is_inst (rw is_inst at h)
  | inl no_inst ↦ elim (Option-cases line.directive) [
    | inr (dir, is_dir) ↦
        directive-Effect line b next dir no_inst is_dir (rw is_dir at (rw no_inst at h))
    | inl no_dir ↦ elim (Option-cases line.symbol_marker) [
      | inr (name, is_label) ↦
          symbol-Effect line b next name no_inst no_dir is_label
            (rw is_label at (rw no_dir at (rw no_inst at h)))
      | inl no_label ↦
          subst (Effect line b) (ok-injective _ _ (rw no_label at (rw no_dir at (rw no_inst at h))))
            (kept (rw no_inst (rw no_dir refl)) (rw no_inst (rw no_dir refl))
              (rw no_inst (rw no_dir no_label)))
    ]
  ]
]
