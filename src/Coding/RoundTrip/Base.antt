-- ===== src/Coding/RoundTrip/Base.antt =====
-- What it means to give a word back, and the inversion of a table lookup.
use mips.Prelude.{
  ◌or_else◌, ◌or_try◌, refl, when, ℕ, ◌≡◌, refl, inl, inr, arith, String, Option, some, none,
  lookup, Option-cases, ◌==◌,
}
use mips.Isa.{Instruction, ok, u16}
use mips.Coding.Tables.{OpcodeTable}
use mips.Coding.Target.{SymbolTable}
use mips.Coding.Decode.{when_numbered, Fields}
use mips.Coding.Encode.{encode}
use mips.Coding.RoundTrip.Layout.{FieldsOf}

pub when_numbered-eq-some :
    (m : OpcodeTable) (number : ℕ) (make : String → Option Instruction) {i : Instruction}
    → when_numbered m number make ≡ some i
    → (name : String) × (lookup number m ≡ some name) × (make name ≡ some i)
unfolding when_numbered
when_numbered-eq-some m number make h = elim (Option-cases (lookup number m)) [
  | inl absent ↦ absurd (ground arith)
  | inr (name, found) ↦ (name, found, ground arith)
]

pub when-eq-some :
    (x : ℕ) (j : Instruction) {i : Instruction} → when (x == 0) j ≡ some i → (x ≡ 0) × (j ≡ i)
when-eq-some x j h = ground arith

-- The address and the symbols do not matter but to a jump.
abbrev pub GivesBack : ℕ → SymbolTable → ℕ → Instruction → Type 0
GivesBack inst_addr symbols w i = encode i inst_addr symbols ≡ ok w

pub same_half : {w : ℕ} {f : Fields} → FieldsOf w f → u16 f.immediate ≡ f.immediate
same_half of = omega arith

-- A property of every block's result is a property of the chain's result.
module _ {ℓ} (P : Instruction → Type ℓ) where
  pub or_else-all :
      (o : Option Instruction) (y : Instruction)
      → ((i : Instruction) → o ≡ some i → P i)
      → P y
      → P (o or_else y)
  or_else-all none y h p = p
  or_else-all (some x) y h p = h x refl

  pub or_try-all :
      (o q : Option Instruction)
      → ((i : Instruction) → o ≡ some i → P i)
      → ((i : Instruction) → q ≡ some i → P i)
      → (i : Instruction) → o or_try q ≡ some i
      → P i
  or_try-all none q h p i e = p i e
  or_try-all (some x) q h p i e = h i e
