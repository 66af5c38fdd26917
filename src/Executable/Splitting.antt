-- ===== src/Executable/Splitting.antt =====
-- What lines mean behind other lines.
use mathlib.Core.Option.{some-injective}
use mips.Prelude.{
  ℕ, ◌≡◌, refl, ap, ◌∙◌, String, List, [], ◌∷◌, ◌++◌, Option, none, some, inl, inr, Bool-cases,
  Option-cases, str_eq,
}
use mips.Isa.{Instruction, ok}
use mips.Coding.Target.{SymbolTable}
use mips.Assembly.Token.{TokenizedLine}
use mips.Assembly.Parse.{parse_tokenized_instruction}
use mips.Assembly.Lines.{line_instruction, directive_instruction}
use mips.Executable.Source.{
  address_after, address_behind, with_word, with_label, image, labels, line_label, line_fault,
  instruction_in,
}

pub address_behind-append :
    (front back : List TokenizedLine) (addr : ℕ)
    → address_behind (front ++ back) addr ≡ address_behind back (address_behind front addr)
address_behind-append [] back addr = refl
address_behind-append (line ∷ front) back addr =
    address_behind-append front back (address_after line addr)

pub image-append :
    (front back : List TokenizedLine) (addr : ℕ)
    → image (front ++ back) addr ≡ image front addr ++ image back (address_behind front addr)
unfolding image
image-append [] back addr = refl
image-append (line ∷ front) back addr =
    ap (with_word (instruction_in (line_instruction line)) addr)
      (image-append front back (address_after line addr))
    ∙ with_word-append (instruction_in (line_instruction line)) addr
  where
    tail : List (ℕ × Instruction)
    tail = image back (address_behind front (address_after line addr))

    with_word-append :
        (word : Option Instruction) (a : ℕ)
        → with_word word a (image front (address_after line addr) ++ tail)
          ≡ with_word word a (image front (address_after line addr)) ++ tail
    with_word-append none a = refl
    with_word-append (some i) a = refl

pub labels-append :
    (front back : List TokenizedLine) (addr : ℕ)
    → labels (front ++ back) addr ≡ labels front addr ++ labels back (address_behind front addr)
unfolding labels
labels-append [] back addr = refl
labels-append (line ∷ front) back addr =
    ap (with_label (line_label line) addr) (labels-append front back (address_after line addr))
    ∙ with_label-append (line_label line) addr
  where
    tail : SymbolTable
    tail = labels back (address_behind front (address_after line addr))

    with_label-append :
        (label : Option String) (a : ℕ)
        → with_label label a (labels front (address_after line addr) ++ tail)
          ≡ with_label label a (labels front (address_after line addr)) ++ tail
    with_label-append none a = refl
    with_label-append (some s) a = refl

-- A line with an instruction has no fault and no label.
pub instruction-no_fault :
    (line : TokenizedLine) (i : Instruction)
    → line_instruction line ≡ some (ok i)
    → (line_fault line ≡ none) × (line_label line ≡ none)
unfolding line_instruction line_fault directive_instruction
instruction-no_fault line i h = elim (Option-cases line.instruction) [
  | inr (t, is_inst) ↦
      let parsed : parse_tokenized_instruction t ≡ ok i = some-injective _ _ (rw is_inst at h) in
      (rw is_inst (rw parsed refl), rw is_inst refl)
  | inl no_inst ↦ elim (Option-cases line.directive) [
    | inl no_dir ↦ let q = rw no_dir at (rw no_inst at h) in absurd (cc)
    | inr (dir, is_dir) ↦ elim (Bool-cases (str_eq dir.name "word")) [
      | inl word ↦ (rw no_inst (rw is_dir (rw word refl)), rw no_inst (rw is_dir refl))
      | inr other ↦ let q = rw other at (rw is_dir at (rw no_inst at h)) in absurd (cc)
    ]
  ]
]
