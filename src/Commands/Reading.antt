-- ===== src/Commands/Reading.antt =====
-- The lines that mips-disas renders for words, as `ParseExecutable` reads them.
use mips.Prelude.{
  ℕ, ◌+◌, ◌*◌, ◌%◌, ◌^◌, ◌≤◌, ◌<◌, ◌≡◌, ◌≢◌, ◌==◌, refl, ap, ◌∙◌, sym, subst, List, [], ◌∷◌, none,
  some, arith, All, length, Bool-cases, map, lookup, inl, inr,
}
use mips.Isa.{Instruction, ok, add32}
use mips.Coding.Target.{SymbolTable}
use mips.Coding.Decode.{decode_instruction}
use mips.Coding.Encode.{encode}
use mips.Coding.RoundTrip.Whole.{encode-decode_instruction}
use mips.Assembly.Token.{TokenizedLine}
use mips.Assembly.Lines.{line_instruction}
use mips.Assembly.Reassembly.Whole.{decode_instruction-Reads}
use mips.Executable.Source.{image, labels, line_fault, line_label, with_label, address_after}
use mips.Executable.Refines.{HasRoom}
use mips.Executable.Acceptance.{IsApart}
use mips.Executable.Splitting.{instruction-no_fault}
use mips.Commands.Disassemble.{render_all}

-- a line that is read as an instruction which is encoded as the word
pub record IsWord (addr w : ℕ) (line : TokenizedLine) : Type 0 where
  pub back : Instruction
  pub read : line_instruction line ≡ some (ok back)
  pub encoded : (symbols : SymbolTable) → encode back addr symbols ≡ ok w

abbrev pub AreWords : ℕ → List ℕ → List TokenizedLine → Type 0
AreWords addr [] [] = Unit
AreWords addr (w ∷ ws) (line ∷ lines) = IsWord addr w line × AreWords (addr + 4) ws lines
AreWords addr _ _ = ⊥

pub render_all-AreWords :
    (addr : ℕ) (ws : List ℕ)
    → All (λ w. w < 2 ^ 32) ws
    → addr + 4 * length ws < 2 ^ 28
    → (lines : List TokenizedLine) × (render_all (map decode_instruction ws) ≡ ok lines)
      × AreWords addr ws lines
unfolding render_all
render_all-AreWords addr [] small near = ([], refl, tt)
render_all-AreWords addr (w ∷ ws) small near =
    let reads = decode_instruction-Reads w small.0 in
    let (lines, rendered, words) =
      render_all-AreWords (addr + 4) ws small.1 (omega (arith, near)) in
    let close : add32 addr 4 < 2 ^ 28 = omega (arith, near) in
    (
      reads.line ∷ lines,
      rw reads.rendered (rw rendered refl),
      (
        record {
          back = reads.back;
          read = reads.read;
          encoded = λ symbols.
              reads.same addr symbols close
              ∙ encode-decode_instruction w addr symbols small.0 close;
        },
        words,
      ),
    )

module _ {addr w : ℕ} {line : TokenizedLine} (word : IsWord addr w line) (rest : List TokenizedLine)
    (near : addr + 4 < 2 ^ 28) where
  pub image-IsWord : image (line ∷ rest) addr ≡ (addr, word.back) ∷ image rest (addr + 4)
  unfolding image
  image-IsWord =
      let next : add32 addr 4 ≡ addr + 4 = omega (arith, near) in
      rw (word.read, address_after) (rw next refl)

  labels-IsWord : labels (line ∷ rest) addr ≡ labels rest (addr + 4)
  unfolding labels
  labels-IsWord =
      let next : add32 addr 4 ≡ addr + 4 = omega (arith, near) in
      let silent : line_label line ≡ none = (instruction-no_fault line word.back word.read).1 in
      ap (λ l. with_label l addr (labels rest (address_after line addr))) silent
      ∙ rw (word.read, address_after) (rw next refl)

-- What the lines mean: the words stand behind one another, from the address on.
pub record Consecutive (addr : ℕ) (ws : List ℕ) (lines : List TokenizedLine) : Type 0 where
  pub sound : All (λ line. line_fault line ≡ none) lines
  pub room : All HasRoom (image lines addr)
  pub apart : IsApart (image lines addr)
  pub unlabelled : labels lines addr ≡ []
  pub below : (k : ℕ) → k < addr → lookup k (image lines addr) ≡ none
  pub above : (k : ℕ) → addr + 4 * length ws ≤ k → lookup k (image lines addr) ≡ none
  pub within :
      (k : ℕ)
      → addr ≤ k
      → k < addr + 4 * length ws
      → k % 4 ≡ addr % 4
      → lookup k (image lines addr) ≢ none

pub AreWords-Consecutive :
    (addr : ℕ) (ws : List ℕ) (lines : List TokenizedLine)
    → AreWords addr ws lines
    → addr + 4 * length ws < 2 ^ 28
    → Consecutive addr ws lines
unfolding image labels
AreWords-Consecutive addr [] [] words near = record {
  sound = tt;
  room = tt;
  apart = tt;
  unlabelled = refl;
  below = λ k h. refl;
  above = λ k h. refl;
  within = λ k low high even p. omega (arith, low, high);
}
AreWords-Consecutive addr [] (line ∷ lines) words near = elim words [ ]
AreWords-Consecutive addr (w ∷ ws) [] words near = elim words [ ]
AreWords-Consecutive addr (w ∷ ws) (line ∷ lines) words near =
    let close : addr + 4 < 2 ^ 28 = omega (arith, near) in
    let rest = AreWords-Consecutive (addr + 4) ws lines words.1 (omega (arith, near)) in
    let here = image-IsWord words.0 lines close in
    record {
      sound = ((instruction-no_fault line words.0.back words.0.read).0, rest.sound);
      room = subst (All HasRoom) (sym here) (omega (arith, near), rest.room);
      apart = subst IsApart (sym here) (rest.below addr (omega arith), rest.apart);
      unlabelled = labels-IsWord words.0 lines close ∙ rest.unlabelled;
      below = λ k h. ap (lookup k) here ∙ ground (arith, rest.below k);
      above = λ k h. ap (lookup k) here ∙ ground (arith, rest.above k);
      within = λ k low high even p. elim (Bool-cases (addr == k)) [
        | inl first ↦ let q = rw first at (sym (ap (lookup k) here) ∙ p) in absurd (cc)
        | inr later ↦
            let other : addr ≢ k = λ e. ground (arith, later, e) in
            rest.within k (omega (arith, low, even, other)) (omega (arith, high))
              (omega (arith, even)) (rw later at (sym (ap (lookup k) here) ∙ p))
      ];
    }
