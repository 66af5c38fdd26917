-- ===== src/Executable/Fault.antt =====
-- What `ParseExecutable` does with one line: it takes it, or it fails and names the line.
use mips.Prelude.{
  ◌%◌, ◌≡◌, ◌≢◌, refl, sym, ap, ◌∙◌, String, List, [], ◌∷◌, none, some, Bool, true, false, ◌||◌,
  bit_and, ◌==◌, str_eq, inl, inr, subst, Bool-cases, Option-cases, lookup_str,
}
use mips.Bits.Fields.{bit_and_mask}
use mips.Isa.{
  Instruction, Result, ok, err, panic, Error, overwriting, repeated_symbol, on_line, Result-cases,
}
use mips.Coding.Decode.{decode_instruction}
use mips.Assembly.Token.{TokenizedLine, TokenizedDirective, TokenizedInstruction}
use mips.Assembly.Template.{Template, match, templates}
use mips.Assembly.Parse.{parse_from, parse_tokenized_instruction}
use mips.Assembly.Lines.{line_instruction, directive_instruction}
use mips.Executable.Image.{address_in_use}
use mips.Executable.Parse.{
  Building, place, parse_instruction_line, parse_directive_line, parse_symbol_line, parse_line,
}
use mips.Executable.Source.{line_fault, line_label}

-- the reason for which a line is rejected
pub data Fault (line : TokenizedLine) (b : Building) : Error → Type 0 where
  faulty : {e : Error} → line_fault line ≡ some e → Fault line b e
  taken :
      (i : Instruction)
      → line_instruction line ≡ some (ok i)
      → address_in_use b.segments b.instruction_addr ≡ true
      → Fault line b (overwriting b.instruction_addr)
  repeated :
      (s : String)
      → line_label line ≡ some s
      → lookup_str s b.symbols ≢ none
      → Fault line b (repeated_symbol s)

-- a line's result: the building goes on, or an error with the line's number and its reason
pub data Outcome (line : TokenizedLine) (b : Building) : Result Building → Type 0 where
  accepted : (next : Building) → Outcome line b (ok next)
  rejected : (e : Error) → Fault line b e → Outcome line b (err (on_line line.line_number e))

parse_from-no_panic :
    (valid_name : Bool) (ts : List Template) (t : TokenizedInstruction)
    → parse_from valid_name ts t ≢ panic
unfolding parse_from
parse_from-no_panic valid_name [] t h = elim (Bool-cases valid_name) [
  | inl valid ↦ let q = rw valid at h in cc
  | inr unknown ↦ let q = rw unknown at h in cc
]
parse_from-no_panic valid_name (template ∷ rest) t h = elim (Bool-cases (match template t)) [
  | inl here ↦ let q = rw here at h in cc
  | inr other ↦
      parse_from-no_panic (valid_name || str_eq template.name t.name) rest t (rw other at h)
]

module _ (line : TokenizedLine) (b : Building) where
  place-Outcome :
      (i : Instruction)
      → line_instruction line ≡ some (ok i)
      → Outcome line b (place line.line_number i b)
  unfolding place
  place-Outcome i is_inst = elim (Bool-cases (address_in_use b.segments b.instruction_addr)) [
    | inl used ↦ rw used (rejected _ (taken i is_inst used))
    | inr free ↦ rw free (accepted _)
  ]

  instruction-Outcome :
      (t : TokenizedInstruction)
      → line.instruction ≡ some t
      → Outcome line b (parse_instruction_line line.line_number t b)
  unfolding parse_instruction_line line_instruction parse_tokenized_instruction line_fault
  instruction-Outcome t is_inst = elim (Result-cases (parse_tokenized_instruction t)) [
    | inl (i, parsed) ↦ rw parsed (place-Outcome i (rw is_inst (ap some parsed)))
    | inr (inl (e, failed)) ↦ rw failed (rejected e (faulty (rw is_inst (rw failed refl))))
    | inr (inr never) ↦ absurd (parse_from-no_panic false templates t never)
  ]

  directive-Outcome :
      (dir : TokenizedDirective)
      → line.instruction ≡ none
      → line.directive ≡ some dir
      → Outcome line b (parse_directive_line line.line_number dir b)
  unfolding parse_directive_line line_instruction directive_instruction line_fault
  directive-Outcome dir no_inst is_dir = elim (Bool-cases (str_eq dir.name "word")) [
    | inl word ↦
        rw word
          (place-Outcome (decode_instruction dir.constant) (rw no_inst (rw is_dir (rw word refl))))
    | inr no_word ↦ elim (Bool-cases (str_eq dir.name "text")) [
      | inr no_text ↦
          rw no_word (
            rw no_text
              (rejected _ (faulty (rw no_inst (rw is_dir (rw no_word (rw no_text refl)))))))
      | inl text ↦ elim (Bool-cases (bit_and dir.constant 3 == 0)) [
        | inl even ↦ rw no_word (rw text (rw even (accepted _)))
        | inr odd ↦
            let rest : (dir.constant % 4 == 0) ≡ false =
              ap (λ m. m == 0) (sym (bit_and_mask 2 dir.constant)) ∙ odd in
            rw no_word (
              rw text (
                rw odd (
                  rejected _
                    (faulty (rw no_inst (rw is_dir (rw no_word (rw text (rw rest refl)))))))))
      ]
    ]
  ]

  symbol-Outcome :
      (s : String)
      → line.instruction ≡ none
      → line.directive ≡ none
      → line.symbol_marker ≡ some s
      → Outcome line b (parse_symbol_line line.line_number s b)
  unfolding parse_symbol_line
  symbol-Outcome s no_inst no_dir is_label = elim (Option-cases (lookup_str s b.symbols)) [
    | inl absent ↦ rw (absent, parse_symbol_line) (accepted _)
    | inr (_, present) ↦
        rw (present, parse_symbol_line)
          (rejected _ (repeated s (rw no_inst (rw no_dir is_label)) (λ absent. cc)))
  ]

  pub parse_line-Outcome : Outcome line b (parse_line line b)
  unfolding parse_line
  parse_line-Outcome = elim (Option-cases line.instruction) [
    | inr (t, is_inst) ↦
        let step : parse_line line b ≡ parse_instruction_line line.line_number t b =
          rw is_inst refl in
        subst (Outcome line b) (sym step) (instruction-Outcome t is_inst)
    | inl no_inst ↦ elim (Option-cases line.directive) [
      | inr (dir, is_dir) ↦
          let step : parse_line line b ≡ parse_directive_line line.line_number dir b =
            rw no_inst (rw is_dir refl) in
          subst (Outcome line b) (sym step) (directive-Outcome dir no_inst is_dir)
      | inl no_dir ↦ elim (Option-cases line.symbol_marker) [
        | inr (s, is_label) ↦
            let step : parse_line line b ≡ parse_symbol_line line.line_number s b =
              rw no_inst (rw no_dir (rw is_label refl)) in
            subst (Outcome line b) (sym step) (symbol-Outcome s no_inst no_dir is_label)
        | inl no_label ↦
            let step : parse_line line b ≡ ok b = rw no_inst (rw no_dir (rw no_label refl)) in
            subst (Outcome line b) (sym step) (accepted b)
      ]
    ]
  ]
