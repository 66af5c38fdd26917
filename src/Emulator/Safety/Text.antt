-- ===== src/Emulator/Safety/Text.antt =====
-- mips-run on a text.
use mathlib.Core.Option.{some-injective}
use mips.Prelude.{
  ℕ, ◌+◌, ◌<◌, ◌^◌, ◌≡◌, ◌≢◌, subst, String, List, [], ◌∷◌, some, Bool, All, inl, inr, Bool-cases,
  Option-cases,
}
use mips.Isa.{Result, ok, err, panic, ok-injective, bind-ok}
use mips.Memory.Lazy.{lazy_ops}
use mips.Memory.Lazy.Laws.{lazy_laws}
use mips.Assembly.Token.{ArgToken, TokenizedLine, TokenizedDirective, TokenizedInstruction, no_line}
use mips.Assembly.Reading.Numbers.{codes, parse_constant, parse_constant-lt}
use mips.Assembly.Reading.Tokens.{all_of, is_empty, parse_arg_token}
use mips.Assembly.Reading.Bounds.{parse_arg_token-IsArgToken}
use mips.Assembly.Reading.Texts.{fields, trim_space, split_lines, before_comma}
use mips.Assembly.Reading.Lexer.{
  split_comment, directive_match, symbol_match, operand, is_letter, parse_operands,
  tokenize_instruction, tokenize_code, tokenize_line, is_zero_line, on_source, keep_line,
  tokenize_from, tokenize_source,
}
use mips.Executable.Image.{Executable}
use mips.Executable.Join.{parse_executable}
use mips.Emulator.Run.{run, initial_emulator}
use mips.Emulator.Safety.Valid.{IsValid}
use mips.Emulator.Safety.Parsed.{IsToken}
use mips.Emulator.Safety.Source.{IsLexed, run-parse_executable}

operand-ok : (i : ℕ) (r : Result ArgToken) (t : ArgToken) → operand i r ≡ ok t → r ≡ ok t
operand-ok i (ok a) t h = h
operand-ok i (err e) t h = absurd (cc)
operand-ok i panic t h = absurd (cc)

read-IsToken :
    (text : String) (i : ℕ) (t : ArgToken) → operand i (parse_arg_token text) ≡ ok t → IsToken t
read-IsToken text i t h =
    let v = parse_arg_token-IsArgToken text t (operand-ok i (parse_arg_token text) t h) in
    record { register-lt = v.register-lt; base-lt = v.base-lt }

parse_operands-IsToken :
    (i : ℕ) (texts : List String) (ts : List ArgToken)
    → parse_operands i texts ≡ ok ts
    → All IsToken ts
unfolding parse_operands
parse_operands-IsToken i [] ts h = subst (All IsToken) (ok-injective [] ts h) tt
parse_operands-IsToken i (field ∷ []) ts h =
    let (t, read, made) = bind-ok (operand i (parse_arg_token field)) _ ts h in
    subst (All IsToken) (ok-injective _ ts made) (read-IsToken field i t read, tt)
parse_operands-IsToken i (field ∷ next ∷ rest) ts h = elim (Option-cases (before_comma field)) [
  | inl bad ↦ let q = rw (bad, parse_operands) at h in absurd (cc)
  | inr (text, good) ↦
      let (t, read, later) =
        bind-ok (operand i (parse_arg_token text)) _ ts (rw (good, parse_operands) at h) in
      let (others, more, made) = bind-ok (parse_operands (i + 1) (next ∷ rest)) _ ts later in
      subst (All IsToken) (ok-injective _ ts made)
        (read-IsToken text i t read, parse_operands-IsToken (i + 1) (next ∷ rest) others more)
]

tokenize_instruction-IsLexed :
    (texts : List String) (line : TokenizedLine)
    → tokenize_instruction texts ≡ ok line
    → IsLexed line
unfolding tokenize_instruction
tokenize_instruction-IsLexed [] line h = absurd (cc)
tokenize_instruction-IsLexed (n ∷ operands) line h =
    elim (Bool-cases (all_of is_letter (codes n))) [
      | inr bad ↦ let q = rw bad at h in absurd (cc)
      | inl good ↦
          let (ts, read, made) = bind-ok (parse_operands 1 operands) _ line (rw good at h) in
          subst IsLexed (ok-injective _ line made) (record {
            constant-lt = λ dir p. absurd (cc);
            tokens = λ t p.
                subst (λ (x : TokenizedInstruction). All IsToken x.arguments) (some-injective _ t p)
                  (parse_operands-IsToken 1 operands ts read);
          })
    ]

tokenize_code-IsLexed :
    (s : String) (line : TokenizedLine) → tokenize_code s ≡ ok line → IsLexed line
unfolding tokenize_code
tokenize_code-IsLexed s line h = elim (Bool-cases (is_empty s)) [
  | inl empty ↦
      subst IsLexed (ok-injective no_line line (rw empty at h))
        (record { constant-lt = λ dir p. absurd (cc); tokens = λ t p. absurd (cc) })
  | inr more ↦ elim (Option-cases (directive_match s)) [
    | inr (pieces, is_dir) ↦
        let (c, read, made) =
          bind-ok (parse_constant pieces.1) _ line (rw is_dir at (rw more at h)) in
        subst IsLexed (ok-injective _ line made) (record {
          constant-lt = λ dir p.
              subst (λ (d : TokenizedDirective). d.constant < 2 ^ 32) (some-injective _ dir p)
                (parse_constant-lt pieces.1 c read);
          tokens = λ t p. absurd (cc);
        })
    | inl no_dir ↦ elim (Option-cases (symbol_match s)) [
      | inr (sym, is_label) ↦
          subst IsLexed (ok-injective _ line (rw is_label at (rw no_dir at (rw more at h))))
            (record { constant-lt = λ dir p. absurd (cc); tokens = λ t p. absurd (cc) })
      | inl no_label ↦
          tokenize_instruction-IsLexed (fields s) line
            (rw no_label at (rw no_dir at (rw more at h)))
    ]
  ]
]

tokenize_line-IsLexed :
    (s : String) (line : TokenizedLine) → tokenize_line s ≡ ok line → IsLexed line
unfolding tokenize_line
tokenize_line-IsLexed s line h = elim (Option-cases (split_comment (trim_space s))) [
  | inl plain ↦ tokenize_code-IsLexed (trim_space s) line (rw (plain, tokenize_line) at h)
  | inr (pieces, commented) ↦
      let (code_line, read, made) =
        bind-ok (tokenize_code (trim_space pieces.0)) _ line (rw (commented, tokenize_line) at h) in
      let v = tokenize_code-IsLexed (trim_space pieces.0) code_line read in
      subst IsLexed (ok-injective _ line made)
        (record { constant-lt = v.constant-lt; tokens = v.tokens })
]

on_source-ok :
    (n : ℕ) (r : Result TokenizedLine) (line : TokenizedLine)
    → on_source n r ≡ ok line
    → r ≡ ok line
on_source-ok n (ok a) line h = h
on_source-ok n (err e) line h = absurd (cc)
on_source-ok n panic line h = absurd (cc)

keep_line-IsLexed :
    (n : ℕ) (line : TokenizedLine) (rest : List TokenizedLine)
    → IsLexed line
    → All IsLexed rest
    → All IsLexed (keep_line n line rest)
keep_line-IsLexed n line rest v all = elim (Bool-cases (is_zero_line line)) [
  | inl zero ↦ rw (zero, keep_line) all
  | inr other ↦
      rw (other, keep_line) (record { constant-lt = v.constant-lt; tokens = v.tokens }, all)
]

tokenize_from-IsLexed :
    (n : ℕ) (texts : List String) (lines : List TokenizedLine)
    → tokenize_from n texts ≡ ok lines
    → All IsLexed lines
unfolding tokenize_from
tokenize_from-IsLexed n [] lines h = subst (All IsLexed) (ok-injective [] lines h) tt
tokenize_from-IsLexed n (text ∷ rest) lines h =
    let (line, read, later) = bind-ok (on_source n (tokenize_line text)) _ lines h in
    let (others, more, made) = bind-ok (tokenize_from (n + 1) rest) _ lines later in
    subst (All IsLexed) (ok-injective _ lines made) (
      keep_line-IsLexed n line others
        (tokenize_line-IsLexed text line (on_source-ok n (tokenize_line text) line read))
        (tokenize_from-IsLexed (n + 1) rest others more))

-- Let a text be tokenized and parsed without an error. Then mips-run does not panic on it, with
-- either flag and for any number of steps, and leaves the emulator well formed.
pub run-tokenize_source :
    (source : String) (lines : List TokenizedLine) (exe : Executable)
    (little_endian relax_alignment : Bool) (fuel : ℕ)
    → tokenize_source source ≡ ok lines
    → parse_executable lines ≡ ok exe
    → ((run lazy_ops fuel (initial_emulator exe little_endian relax_alignment)).0 ≢ some panic)
      × IsValid lazy_ops lazy_laws exe
          (run lazy_ops fuel (initial_emulator exe little_endian relax_alignment)).1
unfolding tokenize_source
run-tokenize_source source lines exe little_endian relax_alignment fuel lexed parsed =
    run-parse_executable lines exe (tokenize_from-IsLexed 1 (split_lines source) lines lexed) parsed
      little_endian relax_alignment fuel
