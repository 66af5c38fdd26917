-- ===== src/Emulator/Safety/Source.antt =====
-- mips-run on a source that is accepted.
use mips.Prelude.{
  subst, ℕ, ◌^◌, ◌<◌, ◌≡◌, ◌≢◌, refl, List, [], ◌∷◌, some, Bool, arith, All, str_eq, inl, inr,
  Bool-cases, Option-cases, length-replicate, get_or-replicate,
}
use mips.Isa.{Instruction, Result, ok, err, panic}
use mathlib.Core.Option.{some-injective}
use mips.Assembly.Token.{TokenizedLine, TokenizedDirective, TokenizedInstruction}
use mips.Assembly.Parse.{parse_tokenized_instruction}
use mips.Assembly.Lines.{line_instruction, directive_instruction}
use mips.Memory.Lazy.{lazy_ops}
use mips.Memory.Lazy.Laws.{new_lazy_memory-IsValid, lazy_laws}
use mips.Executable.Image.{Executable, get, get_from}
use mips.Executable.Lookup.{get-all}
use mips.Executable.Contents.{AllLine, parse_executable-AllSegments}
use mips.Executable.Join.{parse_executable}
use mips.Executable.Source.{instruction_in}
use mips.Emulator.Run.{run, initial_emulator}
use mips.Emulator.Safety.Fits.{Fits}
use mips.Emulator.Safety.Valid.{IsRunnable, IsValid}
use mips.Emulator.Safety.Decoded.{decode_instruction-Fits}
use mips.Emulator.Safety.Parsed.{IsToken, parse_tokenized_instruction-Fits}
use mips.Emulator.Safety.Whole.{run-IsValid}

-- The bounds of the types of a line's parts: the constant of a directive is a `uint32`, and the
-- registers of a token are among the 32.
pub record IsLexed (line : TokenizedLine) : Type 0 where
  pub constant-lt : (dir : TokenizedDirective) → line.directive ≡ some dir → dir.constant < 2 ^ 32
  pub tokens : (t : TokenizedInstruction) → line.instruction ≡ some t → All IsToken t.arguments

word-Fits :
    (line : TokenizedLine) (i : Instruction)
    → IsLexed line
    → instruction_in (line_instruction line) ≡ some i
    → Fits i
unfolding line_instruction directive_instruction
word-Fits line i v h = elim (Option-cases line.instruction) [
  | inr (t, is_inst) ↦
      parsed-Fits t (parse_tokenized_instruction t) refl (v.tokens t is_inst) (rw is_inst at h)
  | inl no_inst ↦ elim (Option-cases line.directive) [
    | inl no_dir ↦ let q = rw no_dir at (rw no_inst at h) in absurd (cc)
    | inr (dir, is_dir) ↦ elim (Bool-cases (str_eq dir.name "word")) [
      | inr other ↦ let q = rw other at (rw is_dir at (rw no_inst at h)) in absurd (cc)
      | inl word ↦
          subst Fits (some-injective _ _ (rw word at (rw is_dir at (rw no_inst at h))))
            (decode_instruction-Fits dir.constant (v.constant-lt dir is_dir))
    ]
  ]
]
  where
    parsed-Fits :
        (t : TokenizedInstruction) (r : Result Instruction)
        → parse_tokenized_instruction t ≡ r
        → All IsToken t.arguments
        → instruction_in (some r) ≡ some i
        → Fits i
    parsed-Fits t (ok j) p of q =
        subst Fits (some-injective j i q) (parse_tokenized_instruction-Fits t j of p)
    parsed-Fits t (err e) p of q = absurd (cc)
    parsed-Fits t panic p of q = absurd (cc)

lines-Fits : (lines : List TokenizedLine) → All IsLexed lines → All (AllLine Fits) lines
lines-Fits [] h = tt
lines-Fits (line ∷ rest) h = (λ i present. word-Fits line i h.0 present, lines-Fits rest h.1)

-- a new emulator
pub initial_emulator-IsValid :
    (exe : Executable) (little_endian relax_alignment : Bool)
    → IsValid lazy_ops lazy_laws exe (initial_emulator exe little_endian relax_alignment)
initial_emulator-IsValid exe little_endian relax_alignment = record {
  size = length-replicate 32 0;
  words = λ r. rw (get_or-replicate {A = ℕ} 32 r 0) (omega arith);
  zero = get_or-replicate 32 0 0;
  counter-lt = omega arith;
  target-lt = omega arith;
  memory_valid = new_lazy_memory-IsValid;
  same_executable = refl;
}

module _ (lines : List TokenizedLine) (exe : Executable) (lexed : All IsLexed lines)
    (parsed : parse_executable lines ≡ ok exe) where
  parse_executable-IsRunnable : IsRunnable exe
  unfolding get get_from
  parse_executable-IsRunnable addr i found =
      get-all Fits exe.segments addr
        (parse_executable-AllSegments Fits lines exe (lines-Fits lines lexed) parsed) found

  -- Let a source be accepted whose tokens name registers below 32 and whose directives have 32-bit
  -- constants. Then mips-run does not panic on it, with either flag and for any number of steps,
  -- and leaves the emulator well formed.
  pub run-parse_executable :
      (little_endian relax_alignment : Bool) (fuel : ℕ)
      → ((run lazy_ops fuel (initial_emulator exe little_endian relax_alignment)).0 ≢ some panic)
        × IsValid lazy_ops lazy_laws exe
            (run lazy_ops fuel (initial_emulator exe little_endian relax_alignment)).1
  run-parse_executable little_endian relax_alignment fuel =
      run-IsValid lazy_ops lazy_laws exe parse_executable-IsRunnable fuel
        (initial_emulator exe little_endian relax_alignment)
        (initial_emulator-IsValid exe little_endian relax_alignment)
