-- ===== src/Emulator/Safety/Parsed.antt =====
-- The instructions that are parsed from a source can be run, and with them the source.
use mips.Prelude.{
  ℕ, ◌+◌, ◌^◌, ◌≤◌, ◌<◌, ◌≡◌, refl, sym, ◌∙◌, subst, String, List, [], ◌∷◌, ◌++◌, Bool, true, false,
  arith, All, length, length-append, leb, ◌&&◌, ◌||◌, str_eq, eq_iff, if◌then◌else◌, inl, inr,
  Bool-cases,
}
use mips.Isa.{Instruction, instruction, ok, ok-injective}
use mips.Assembly.Token.{
  ArgToken, TokenizedInstruction, register_of, unsigned_constant16_of, signed_constant16_of,
  constant5_of, relative_code_pointer_of, absolute_code_pointer_of, memory_reference_of,
}
use mips.Assembly.Template.{
  ArgumentType, register, signed_constant16, unsigned_constant16, constant5, absolute_code_pointer,
  relative_code_pointer, memory_address, Template, templates, match, is_register, register_count,
}
use mips.Assembly.Parse.{fill, fill_all, parse_from, parse_tokenized_instruction}
use mips.Emulator.Safety.Fits.{Fits, min_registers}

-- the registers that a token can name
pub record IsToken (t : ArgToken) : Type 0 where
  pub register-lt : t.register < 32
  pub base-lt : t.mem_register < 32

record Filled (i : Instruction) (n : String) (count : ℕ) : Type 0 where
  same_name : i.name ≡ n
  size : length i.registers ≡ count
  registers-lt : All (λ r. r < 32) i.registers
  base-lt : i.memory_reference.register < 32
  unsigned-lt : i.unsigned_constant16 < 2 ^ 16
  signed-lt : i.signed_constant16 < 2 ^ 16

All-behind :
    (rs : List ℕ) (r : ℕ) → All (λ x. x < 32) rs → r < 32 → All (λ x. x < 32) (rs ++ r ∷ [])
All-behind [] r all h = (h, tt)
All-behind (x ∷ rs) r all h = (all.0, All-behind rs r all.1 h)

fill-Filled :
    (a : ArgumentType) (t : ArgToken) (i : Instruction) (n : String) (count : ℕ)
    → IsToken t
    → Filled i n count
    → Filled (fill a t i) n (count + (if is_register a then 1 else 0))
unfolding fill register_of unsigned_constant16_of signed_constant16_of constant5_of
    relative_code_pointer_of absolute_code_pointer_of memory_reference_of is_register
fill-Filled register t i n count of f = record {
  same_name = f.same_name;
  size = length-append i.registers (t.register ∷ []) ∙ omega (arith, f.size);
  registers-lt = All-behind i.registers t.register f.registers-lt of.register-lt;
  base-lt = f.base-lt;
  unsigned-lt = f.unsigned-lt;
  signed-lt = f.signed-lt;
}
fill-Filled signed_constant16 t i n count of f = record {
  same_name = f.same_name;
  size = omega (arith, f.size);
  registers-lt = f.registers-lt;
  base-lt = f.base-lt;
  unsigned-lt = f.unsigned-lt;
  signed-lt = omega arith;
}
fill-Filled unsigned_constant16 t i n count of f = record {
  same_name = f.same_name;
  size = omega (arith, f.size);
  registers-lt = f.registers-lt;
  base-lt = f.base-lt;
  unsigned-lt = omega arith;
  signed-lt = f.signed-lt;
}
fill-Filled constant5 t i n count of f = record {
  same_name = f.same_name;
  size = omega (arith, f.size);
  registers-lt = f.registers-lt;
  base-lt = f.base-lt;
  unsigned-lt = f.unsigned-lt;
  signed-lt = f.signed-lt;
}
fill-Filled absolute_code_pointer t i n count of f = record {
  same_name = f.same_name;
  size = omega (arith, f.size);
  registers-lt = f.registers-lt;
  base-lt = f.base-lt;
  unsigned-lt = f.unsigned-lt;
  signed-lt = f.signed-lt;
}
fill-Filled relative_code_pointer t i n count of f = record {
  same_name = f.same_name;
  size = omega (arith, f.size);
  registers-lt = f.registers-lt;
  base-lt = f.base-lt;
  unsigned-lt = f.unsigned-lt;
  signed-lt = f.signed-lt;
}
fill-Filled memory_address t i n count of f = record {
  same_name = f.same_name;
  size = omega (arith, f.size);
  registers-lt = f.registers-lt;
  base-lt = of.base-lt;
  unsigned-lt = f.unsigned-lt;
  signed-lt = f.signed-lt;
}

fill_all-Filled :
    (as' : List ArgumentType) (ts : List ArgToken) (i : Instruction) (n : String) (count : ℕ)
    → length as' ≡ length ts
    → All IsToken ts
    → Filled i n count
    → Filled (fill_all as' ts i) n (count + register_count as')
unfolding fill_all register_count
fill_all-Filled [] [] i n count same of f = subst (Filled i n) (omega arith) f
fill_all-Filled [] (t ∷ ts) i n count same of f = absurd (omega (arith, same))
fill_all-Filled (a ∷ as') [] i n count same of f = absurd (omega (arith, same))
fill_all-Filled (a ∷ as') (t ∷ ts) i n count same of f =
    subst (Filled (fill_all as' ts (fill a t i)) n) (omega arith) (
      fill_all-Filled as' ts (fill a t i) n _ (omega (arith, same)) of.1
        (fill-Filled a t i n count of.0 f))

-- each template has as many registers as the emulator reads
are_enough : List Template → Bool
are_enough [] = true
are_enough (template ∷ rest) =
    leb (min_registers template.name) (register_count template.arguments) && are_enough rest

no_missing_register : are_enough templates ≡ true
unfolding are_enough templates min_registers register_count
no_missing_register = refl

match_lem :
    (template : Template) (t : TokenizedInstruction)
    → match template t ≡ true
    → (template.name ≡ t.name) × (length template.arguments ≡ length t.arguments)
unfolding match
match_lem template t h = (ground (arith, h, eq_iff template.name t.name), ground (arith, h))

parse_from-Fits :
    (valid_name : Bool) (ts : List Template) (t : TokenizedInstruction) (i : Instruction)
    → are_enough ts ≡ true
    → All IsToken t.arguments
    → parse_from valid_name ts t ≡ ok i
    → Fits i
unfolding parse_from are_enough
parse_from-Fits valid_name [] t i enough of h = elim (Bool-cases valid_name) [
  | inl valid ↦ let q = rw valid at h in absurd (cc)
  | inr unknown ↦ let q = rw unknown at h in absurd (cc)
]
parse_from-Fits valid_name (template ∷ rest) t i enough of h =
    elim (Bool-cases (match template t)) [
      | inr other ↦
          parse_from-Fits (valid_name || str_eq template.name t.name) rest t i
            (ground (arith, enough)) of (rw other at h)
      | inl here ↦
          let (named, sized) = match_lem template t here in
          let filled =
            fill_all-Filled template.arguments t.arguments (instruction t.name []) t.name 0 sized of
              (record {
                same_name = refl;
                size = refl;
                registers-lt = tt;
                base-lt = omega arith;
                unsigned-lt = omega arith;
                signed-lt = omega arith;
              }) in
          let registers : min_registers template.name ≤ register_count template.arguments =
            ground (arith, enough) in
          subst Fits (ok-injective _ i (rw here at h)) (record {
            enough =
                subst
                  (λ n.
                    min_registers n
                    ≤ length
                        (fill_all template.arguments t.arguments (instruction t.name [])).registers)
                  (named ∙ sym filled.same_name) (omega (arith, registers, filled.size));
            registers-lt = filled.registers-lt;
            base-lt = filled.base-lt;
            unsigned-lt = filled.unsigned-lt;
            signed-lt = filled.signed-lt;
          })
    ]

pub parse_tokenized_instruction-Fits :
    (t : TokenizedInstruction) (i : Instruction)
    → All IsToken t.arguments
    → parse_tokenized_instruction t ≡ ok i
    → Fits i
unfolding parse_tokenized_instruction
parse_tokenized_instruction-Fits t i of h =
    parse_from-Fits false templates t i no_missing_register of h
