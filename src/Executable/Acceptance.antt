-- ===== src/Executable/Acceptance.antt =====
-- The sources that `ParseExecutable` accepts.
use mips.Prelude.{
  ℕ, ◌≡◌, ◌≢◌, refl, subst, String, List, [], ◌∷◌, ◌++◌, none, arith, All, inl, inr, Bool-cases,
  str_eq, eq_iff, lookup, lookup_str,
}
use mips.Isa.{Instruction, Result, ok, Error}
use mips.Coding.Target.{SymbolTable}
use mips.Assembly.Token.{TokenizedLine}
use mips.Executable.Image.{Executable}
use mips.Executable.Join.{parse_executable}
use mips.Executable.Source.{address_after, address_behind, with_label, image, labels, line_fault}
use mips.Executable.Splitting.{image-append, labels-append}
use mips.Executable.Refines.{HasRoom}
use mips.Executable.Verdict.{
  Reason, at_fault, overlapping, declared, Verdict, success, failure, parse_executable-Verdict,
}

-- no address twice
abbrev pub IsApart : List (ℕ × Instruction) → Type 0
IsApart [] = Unit
IsApart (word ∷ rest) = (lookup word.0 rest ≡ none) × IsApart rest

-- no label twice
abbrev pub IsUnique : SymbolTable → Type 0
IsUnique [] = Unit
IsUnique (label ∷ rest) = (lookup_str label.0 rest ≡ none) × IsUnique rest

split-IsApart :
    (xs ys : List (ℕ × Instruction)) (k : ℕ) (i : Instruction)
    → IsApart (xs ++ (k, i) ∷ ys)
    → lookup k xs ≡ none
split-IsApart [] ys k i h = refl
split-IsApart ((j, w) ∷ xs) ys k i h = ground (arith, split-IsApart xs ys k i h.1, lookup_behind xs)
  where
    lookup_behind : (zs : List (ℕ × Instruction)) → j ≡ k → lookup j (zs ++ (k, i) ∷ ys) ≢ none
    lookup_behind [] p q = ground arith
    lookup_behind (z ∷ zs) p q = ground (arith, lookup_behind zs)

split-IsUnique :
    (xs ys : SymbolTable) (s : String) (a : ℕ)
    → IsUnique (xs ++ (s, a) ∷ ys)
    → lookup_str s xs ≡ none
split-IsUnique [] ys s a h = refl
split-IsUnique ((j, w) ∷ xs) ys s a h = elim (Bool-cases (str_eq j s)) [
  | inl same ↦ absurd (
      lookup_behind xs
        (subst (λ k. lookup_str k (xs ++ (s, a) ∷ ys) ≡ none) ((eq_iff j s).0 same) h.0))
  | inr other ↦ rw other (split-IsUnique xs ys s a h.1)
]
  where
    lookup_behind : (zs : SymbolTable) → lookup_str s (zs ++ (s, a) ∷ ys) ≢ none
    lookup_behind [] q = let r = rw ((eq_iff s s).1 refl) at q in cc
    lookup_behind ((k, v) ∷ zs) q = elim (Bool-cases (str_eq k s)) [
      | inl same ↦ let r = rw same at q in cc
      | inr other ↦ lookup_behind zs (rw other at q)
    ]

All-middle :
    {A : Type 0} (P : A → Type 0) (front : List A) (x : A) (back : List A)
    → All P (front ++ x ∷ back)
    → P x
All-middle P [] x back h = h.0
All-middle P (y ∷ front) x back h = All-middle P front x back h.1

-- A line behind others that neither repeats them nor has a fault has no reason to be rejected.
no-Reason :
    (front : List TokenizedLine) (line : TokenizedLine) (back : List TokenizedLine) (e : Error)
    → line_fault line ≡ none
    → IsApart (image (front ++ line ∷ back) 0)
    → IsUnique (labels (front ++ line ∷ back) 0)
    → ¬ Reason front line e
unfolding image labels
no-Reason front line back e sound apart unique (at_fault fault) = cc
no-Reason front line back _ sound apart unique (overlapping i is_inst taken) = taken (
    split-IsApart (image front 0) _ (address_behind front 0) i
      (rw is_inst at (subst IsApart (image-append front (line ∷ back) 0) apart)))
no-Reason front line back _ sound apart unique (declared s is_label taken) = taken (
    split-IsUnique (labels front 0) _ s (address_behind front 0) (
      subst
        (λ l. IsUnique (
          labels front 0
          ++ with_label l (address_behind front 0)
              (labels back (address_after line (address_behind front 0)))))
        is_label (subst IsUnique (labels-append front (line ∷ back) 0) unique)))

Verdict-accepts :
    (lines : List TokenizedLine) (r : Result Executable)
    → All (λ line. line_fault line ≡ none) lines
    → IsApart (image lines 0)
    → IsUnique (labels lines 0)
    → Verdict lines r
    → (exe : Executable) × (r ≡ ok exe)
Verdict-accepts lines _ sound apart unique (success exe) = (exe, refl)
Verdict-accepts lines _ sound apart unique (failure front line back split e reason) = absurd (
    no-Reason front line back e
      (All-middle (λ l. line_fault l ≡ none) front line back
        (subst (All (λ l. line_fault l ≡ none)) split sound))
      (subst (λ l. IsApart (image l 0)) split apart)
      (subst (λ l. IsUnique (labels l 0)) split unique) reason)

-- A source is accepted if each line is understood by itself, each instruction stands at an address
-- `a` with `a + 4 < 2 ^ 32`, no two of them at the same one, and no label is declared twice.
pub parse_executable-accepts :
    (lines : List TokenizedLine)
    → All (λ line. line_fault line ≡ none) lines
    → All HasRoom (image lines 0)
    → IsApart (image lines 0)
    → IsUnique (labels lines 0)
    → (exe : Executable) × (parse_executable lines ≡ ok exe)
parse_executable-accepts lines sound room apart unique =
    Verdict-accepts lines (parse_executable lines) sound apart unique
      (parse_executable-Verdict lines room)
