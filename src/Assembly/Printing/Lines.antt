-- ===== src/Assembly/Printing/Lines.antt =====
-- A line of a source that is printed and read again.
use mips.Prelude.{
  ◌^◌, ◌<◌, ◌≡◌, ◌⊎◌, refl, sym, subst, String, List, [], ◌∷◌, Option, none, some, Bool, true, not,
  inl, inr, Bool-cases, Option-cases, All,
}
use mips.Isa.{ok, bind-ok, ok-injective}
use mips.Assembly.Token.{TokenizedDirective, TokenizedInstruction, TokenizedLine, no_line}
use mips.Assembly.Template.{templates}
use mips.Assembly.Reading.Numbers.{codes, parse_constant, parse_constant-lt}
use mips.Assembly.Reading.Tokens.{all_of, is_empty, is_word_char}
use mips.Assembly.Reading.Texts.{fields, to_upper}
use mips.Assembly.Reading.Lexer.{
  directive_match, symbol_match, is_letter, parse_operands, tokenize_instruction, tokenize_code,
}
use mips.Assembly.Printing.Numerals.{◌+++◌}
use mips.Assembly.Printing.Text.{comment_string, line_string, directive_string, instruction_string}
use mips.Assembly.Printing.Strings.{append_assoc}
use mips.Assembly.Printing.Arguments.{Reprints}
use mips.Assembly.Printing.Calls.{is_recognized, instruction_string-Call}
use mips.Assembly.Printing.Found.{
  parse_operands-Reprints, directive_match-name, symbol_match-is_word_char,
}
use mips.Assembly.Printing.Code.{Reads, is_directive, directive-Reads, symbol-Reads}
use mips.Assembly.Printing.CallCode.{instruction-Reads}

-- A line of code: the text that it is printed as before its comment is read as the line. A line
-- with neither code nor a symbol has no text.
pub record Printed (line : TokenizedLine) : Type 0 where
  pub text : String
  pub reads : Reads text line
  pub bare : record line { comment = none } ≡ line
  pub printed :
      (comment : Option String)
      → line_string (record line { comment = comment }) ≡ (text +++ comment_string comment)

-- The instruction of a line, if it has one, is of a template.
abbrev pub is_known : TokenizedLine → Bool
is_known line = elim line.instruction [ some i ↦ is_recognized templates i | none ↦ true ]

pub directive-Printed :
    (d : TokenizedDirective)
    → is_directive d.name ≡ true
    → d.constant < 2 ^ 32
    → Printed (record no_line { directive = some d })
unfolding line_string
directive-Printed d named small = record {
  text = directive_string d;
  reads = directive-Reads d.name d.constant named small;
  bare = refl;
  printed = λ comment. refl;
}

symbol-Printed :
    (s : String)
    → all_of is_word_char (codes s) ≡ true
    → Printed (record no_line { symbol_marker = some s })
unfolding line_string
symbol-Printed s word = record {
  text = s +++ ":";
  reads = symbol-Reads s word;
  bare = refl;
  printed = λ comment. sym (append_assoc s ":" (comment_string comment));
}

pub instruction-Printed :
    (t : TokenizedInstruction)
    → is_recognized templates t ≡ true
    → All Reprints t.arguments
    → Printed (record no_line { instruction = some t })
unfolding line_string
instruction-Printed t known each = record {
  text = instruction_string t;
  reads = instruction-Reads t (instruction_string t) (instruction_string-Call t known each);
  bare = refl;
  printed = λ comment. refl;
}

tokenize_instruction-Printed :
    (texts : List String) (line : TokenizedLine)
    → tokenize_instruction texts ≡ ok line
    → is_known line ≡ true
    → Printed line
unfolding tokenize_instruction
tokenize_instruction-Printed [] line h known = absurd (cc)
tokenize_instruction-Printed (n ∷ operands) line h known =
    elim (Bool-cases (not (all_of is_letter (codes n)))) [
      | inl bad ↦ let q = rw bad at h in absurd (cc)
      | inr letters ↦
          let (ts, read, made) = bind-ok (parse_operands 1 operands) _ line (rw letters at h) in
          let same = ok-injective _ line made in
          subst Printed same (
            instruction-Printed (record { name = to_upper n; arguments = ts })
              (rw (sym same) at known) (parse_operands-Reprints 1 operands ts read))
    ]

pub tokenize_code-Printed :
    (s : String) (line : TokenizedLine)
    → tokenize_code s ≡ ok line
    → is_known line ≡ true
    → (line ≡ no_line) ⊎ Printed line
unfolding tokenize_code
tokenize_code-Printed s line h known = elim (Bool-cases (is_empty s)) [
  | inl empty ↦ inl (sym (ok-injective no_line line (rw empty at h)))
  | inr filled ↦ elim (Option-cases (directive_match s)) [
    | inr (m, matched) ↦
        let (c, read, made) =
          bind-ok (parse_constant m.1) _ line (rw matched at (rw filled at h)) in
        inr (
          subst Printed (ok-injective _ line made) (
            directive-Printed (record { name = m.0; constant = c })
              (directive_match-name s m matched) (parse_constant-lt m.1 c read)))
    | inl no_directive ↦ elim (Option-cases (symbol_match s)) [
      | inr (sm, marked) ↦ inr (
          subst Printed (ok-injective _ line (rw marked at (rw no_directive at (rw filled at h))))
            (symbol-Printed sm (symbol_match-is_word_char s sm marked)))
      | inl no_symbol ↦ inr (
          tokenize_instruction-Printed (fields s) line
            (rw no_symbol at (rw no_directive at (rw filled at h))) known)
    ]
  ]
]
