-- ===== src/Commands/RoundTrip.antt =====
-- The words of a file through mips-disas and mips-as, line by line; Commands/Text has the texts.
use mips.Prelude.{
  ℕ, suc, ◌+◌, ◌-◌, ◌*◌, ◌/◌, ◌%◌, ◌^◌, ◌≤◌, ◌<◌, ◌≡◌, refl, sym, ap, ◌∙◌, subst, List, [], ◌∷◌,
  Bool, some, arith, All, length, lookup, inl, inr, Bool-cases, leb, bit_and, map,
}
use mips.Bits.Fields.{bit_and_mask}
use mips.Isa.{ok}
use mips.Coding.Decode.{decode_instruction}
use mips.Assembly.Token.{TokenizedLine}
use mips.Executable.Image.{Executable, end, get}
use mips.Executable.Lookup.{get-end}
use mips.Executable.Join.{parse_executable}
use mips.Executable.Ranges.{word_of, IsSegment}
use mips.Executable.Source.{image}
use mips.Executable.Refines.{get-parse_executable}
use mips.Executable.Acceptance.{IsUnique, parse_executable-accepts}
use mips.Executable.Top.{end-IsSegment}
use mips.Commands.Assemble.{write_from}
use mips.Commands.Disassemble.{render_all, disassemble}
use mips.Commands.Writing.{word_in, Words, write_from-Words}
use mips.Commands.Reading.{AreWords, Consecutive, image-IsWord, AreWords-Consecutive}
use mips.Commands.Bytes.{WordsOf}

AreWords-Words :
    (exe : Executable) (addr : ℕ) (ws : List ℕ) (lines : List TokenizedLine)
    → AreWords addr ws lines
    → addr + 4 * length ws < 2 ^ 28
    → addr % 4 ≡ 0
    → ((k : ℕ) → addr ≤ k → k % 4 ≡ 0 → get exe k ≡ lookup k (image lines addr))
    → Words exe addr ws
AreWords-Words exe addr [] [] words near aligned same = tt
AreWords-Words exe addr [] (line ∷ lines) words near aligned same = elim words [ ]
AreWords-Words exe addr (w ∷ ws) [] words near aligned same = elim words [ ]
AreWords-Words exe addr (w ∷ ws) (line ∷ lines) words near aligned same =
    let split = image-IsWord words.0 lines (omega (arith, near)) in
    let found : get exe addr ≡ some words.0.back =
      same addr (omega arith) aligned ∙ ap (lookup addr) split ∙ ground arith in
    (
      rw (found, word_in) (words.0.encoded exe.symbols),
      AreWords-Words exe (addr + 4) ws lines words.1 (omega (arith, near)) (omega (arith, aligned))
          (λ k later even.
            same k (omega (arith, later)) even ∙ ap (lookup k) split ∙ ground (arith, later)),
    )

module _ (exe : Executable) (ws : List ℕ) (lines : List TokenizedLine) (words : AreWords 0 ws lines)
    (near : 4 * length ws < 2 ^ 28) (segment : All IsSegment exe.segments)
    (same : (addr : ℕ) → get exe addr ≡ lookup (word_of addr) (image lines 0)) where
  facts : Consecutive 0 ws lines
  facts = AreWords-Consecutive 0 ws lines words (omega (arith, near))

  same_word : (k : ℕ) → k % 4 ≡ 0 → get exe k ≡ lookup k (image lines 0)
  same_word k even = same k ∙ ap (λ a. lookup a (image lines 0)) (omega (arith, even))

  in_order : Words exe 0 ws
  in_order =
      AreWords-Words exe 0 ws lines words (omega (arith, near)) refl (λ k h even. same_word k even)

  -- the last word is below the end
  lower : end exe % 4 ≡ 0 → 4 * length ws ≤ end exe
  lower even = elim (Bool-cases (leb (4 * length ws) (end exe))) [
    | inl le ↦ ground (arith, le)
    | inr past ↦
        let short : end exe < 4 * length ws = ground (arith, past) in
        absurd (
          facts.within (4 * length ws - 4) (omega arith) (omega (arith, short)) (omega arith) (
            sym (same_word (4 * length ws - 4) (omega arith))
            ∙ get-end exe (4 * length ws - 4) (omega (arith, short, even))))
  ]

  end_of_words : 0 + 4 * length ws ≡ end exe
  end_of_words =
      let (even, room, reached) = end-IsSegment exe segment in
      let upper : end exe ≤ 4 * length ws = elim reached [
        | inl zero ↦ omega (arith, zero)
        | inr last ↦ elim (Bool-cases (leb (end exe) (4 * length ws))) [
          | inl le ↦ ground (arith, le)
          | inr past ↦
              let over : 4 * length ws < end exe = ground (arith, past) in
              absurd (
                last.1 (
                  same_word (end exe - 4) (omega (arith, even))
                  ∙ facts.above (end exe - 4) (omega (arith, even, over))))
        ]
      ] in
      omega (arith, upper, lower even)

-- Lines that are read as the words of a file are assembled to the file.
pub assemble-AreWords :
    (little_endian : Bool) (binary ws : List ℕ) (of : WordsOf little_endian binary ws)
    (lines : List TokenizedLine)
    → length binary < 2 ^ 28
    → AreWords 0 ws lines
    → (exe : Executable) × (parse_executable lines ≡ ok exe)
      × (write_from (suc (length binary / 4)) exe little_endian 0
          ≡ some (record { bytes = binary; result = ok tt }))
assemble-AreWords little_endian binary ws of lines near words =
    let close : 4 * length ws < 2 ^ 28 = omega (arith, of.size) in
    let facts = AreWords-Consecutive 0 ws lines words (omega (arith, close)) in
    let (exe, parsed) =
      parse_executable-accepts lines facts.sound facts.room facts.apart
        (subst IsUnique (sym facts.unlabelled) tt) in
    let (laid_out, same) = get-parse_executable lines exe parsed facts.room in
    let last = end_of_words exe ws lines words close laid_out.segment same in
    let four : length binary / 4 ≡ length ws = omega (arith, of.size) in
    (
      exe,
      parsed,
      ap (λ n. write_from (suc n) exe little_endian 0) four
          ∙ write_from-Words exe little_endian 0 ws last (omega (arith, last, close))
              (in_order exe ws lines words close laid_out.segment same)
          ∙ ap (λ b. some (record { bytes = b; result = ok tt })) of.same_bytes,
    )

-- a file of whole words is disassembled
pub disassemble-render_all :
    (little_endian : Bool) (binary ws : List ℕ) (of : WordsOf little_endian binary ws)
    (lines : List TokenizedLine)
    → length binary % 4 ≡ 0
    → render_all (map decode_instruction ws) ≡ ok lines
    → disassemble little_endian binary ≡ some (ok lines)
unfolding disassemble
disassemble-render_all little_endian binary ws of lines whole rendered =
    let even : bit_and (length binary) 3 ≡ 0 = bit_and_mask 2 (length binary) ∙ whole in
    rw even (ap some (ap render_all of.decoded ∙ rendered))
