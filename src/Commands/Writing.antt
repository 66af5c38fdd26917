-- ===== src/Commands/Writing.antt =====
-- What the loop of mips-as writes.
use mips.Prelude.{
  ℕ, zero, suc, ◌+◌, ◌*◌, ◌^◌, ◌≤◌, ◌<◌, ◌≡◌, ◌≢◌, refl, ap, ◌∙◌, sym, List, [], ◌∷◌, ◌++◌, Bool,
  true, false, Option, none, some, ltb, lt→ltb, arith, inl, inr, Bool-cases, Option-cases, length,
}
use mips.Coding.Target.{SymbolTable}
use mips.Isa.{Instruction, Result, ok, err, panic, add32, ok-injective}
use mips.Coding.Encode.{encode}
use mips.Executable.Image.{Executable, end, get}
use mips.Commands.Assemble.{Written, word_bytes, bytes_at, then_write, write_from}

-- the word written for what `Get` finds: 0 where there is no instruction
abbrev pub word_for : Option Instruction → ℕ → SymbolTable → Result ℕ
word_for none addr symbols = ok 0
word_for (some inst) addr symbols = encode inst addr symbols

abbrev pub word_in : Executable → ℕ → Result ℕ
word_in e addr = word_for (get e addr) addr e.symbols

abbrev pub Words : Executable → ℕ → List ℕ → Type 0
Words e addr [] = Unit
Words e addr (w ∷ ws) = (word_in e addr ≡ ok w) × Words e (addr + 4) ws

abbrev pub all_bytes : Bool → List ℕ → List ℕ
all_bytes little_endian [] = []
all_bytes little_endian (w ∷ ws) = word_bytes little_endian w ++ all_bytes little_endian ws

zero_bytes : (little_endian : Bool) → word_bytes little_endian 0 ≡ 0 ∷ 0 ∷ 0 ∷ 0 ∷ []
unfolding word_bytes
zero_bytes true = refl
zero_bytes false = refl

bytes_at_lem :
    (e : Executable) (little_endian : Bool) (addr w : ℕ)
    → word_in e addr ≡ ok w
    → bytes_at e little_endian addr ≡ ok (word_bytes little_endian w)
unfolding bytes_at
bytes_at_lem e little_endian addr w h = elim (Option-cases (get e addr)) [
  | inl absent ↦
      let zero_word : 0 ≡ w = ok-injective 0 w (rw (absent, word_in) at h) in
      rw (absent, bytes_at)
        (ap ok (sym (zero_bytes little_endian) ∙ ap (word_bytes little_endian) zero_word))
  | inr (inst, present) ↦ rw (present, bytes_at) (rw (rw (present, word_in) at h) refl)
]

-- If the words from an address up to the end are known, the loop ends and writes their bytes.
pub write_from-Words :
    (e : Executable) (little_endian : Bool) (addr : ℕ) (ws : List ℕ)
    → addr + 4 * length ws ≡ end e
    → end e < 2 ^ 32
    → Words e addr ws
    → write_from (suc (length ws)) e little_endian addr
      ≡ some (record { bytes = all_bytes little_endian ws; result = ok tt })
unfolding write_from
write_from-Words e little_endian addr [] at_end room words = ground arith
write_from-Words e little_endian addr (w ∷ ws) at_end room words =
    let more : ltb addr (end e) ≡ true = lt→ltb addr (end e) (omega (arith, at_end)) in
    let next : add32 addr 4 ≡ addr + 4 = omega (arith, at_end) in
    let later =
      write_from-Words e little_endian (addr + 4) ws (omega (arith, at_end)) room words.1 in
    rw more (rw (bytes_at_lem e little_endian addr w words.0) (rw next (rw later refl)))

then_write-some :
    (r : Result (List ℕ)) (rest : Option Written) → rest ≢ none → then_write r rest ≢ none
then_write-some (ok bytes) none h p = h refl
then_write-some (ok bytes) (some w) h p = cc
then_write-some (err e) rest h p = cc
then_write-some panic rest h p = cc

-- The loop ends when there is fuel for each word up to the end, if the end leaves room for a word
-- below the top.
pub write_from-ends :
    (fuel : ℕ) (e : Executable) (little_endian : Bool) (addr : ℕ)
    → end e + 4 ≤ 2 ^ 32
    → end e ≤ addr + 4 * fuel
    → write_from (suc fuel) e little_endian addr ≢ none
unfolding write_from
write_from-ends zero e little_endian addr room enough = λ h. ground arith
write_from-ends (suc fuel) e little_endian addr room enough = elim (Bool-cases (ltb addr (end e))) [
  | inr done ↦ rw done (λ h. cc)
  | inl more ↦
      let below : addr < end e = ground (arith, more) in
      let later =
        write_from-ends fuel e little_endian (add32 addr 4) room (omega (arith, below, enough)) in
      rw more (then_write-some (bytes_at e little_endian addr) _ later)
]
