-- ===== src/Assembly/Reassembly/Constants.antt =====
-- Instructions with a constant of 16 bits, and branches.
use mips.Prelude.{ℕ, ◌^◌, ◌<◌, ◌≡◌, ◌∙◌, sym, refl, ap, arith, [], ◌∷◌, All, bit_or}
use mips.Bits.Fields.{bit_or-zero, bit_or_twice, bit_and_high}
use mips.Isa.{ok, sext16, u16, ◌<<◌}
use mips.Coding.Tables.{two_operand_immediate_opcodes}
use mips.Coding.Decode.{Fields, immediate_instruction, lui_instruction, branch_instruction}
use mips.Coding.Encode.{encode, immediate_word}
use mips.Coding.Families.{two_register_branches, one_register_branches}
use mips.Assembly.Parse.{parse_tokenized_instruction}
use mips.Assembly.Render.{render}
use mips.Assembly.Lines.{line_instruction}
use mips.Assembly.Reassembly.Reads.{Reads, unchanged}

module _ (f : Fields) (immediate-lt : f.immediate < 2 ^ 16) where
  pub two_branches-Reads :
      All
        (λ n. Reads (branch_instruction f n (f.register_s ∷ f.register_t ∷ [])))
        two_register_branches
  unfolding branch_instruction render line_instruction parse_tokenized_instruction
  two_branches-Reads = (
    unchanged _ refl (ground (arith, bit_and_high 30 2 (sext16 f.immediate << 2))),
    (unchanged _ refl (ground (arith, bit_and_high 30 2 (sext16 f.immediate << 2))), tt),
  )

  pub one_branches-Reads :
      All (λ n. Reads (branch_instruction f n (f.register_s ∷ []))) one_register_branches
  unfolding branch_instruction render line_instruction parse_tokenized_instruction
  one_branches-Reads = (
    unchanged _ refl (ground (arith, bit_and_high 30 2 (sext16 f.immediate << 2))),
    (
      unchanged _ refl (ground (arith, bit_and_high 30 2 (sext16 f.immediate << 2))),
      (
        unchanged _ refl (ground (arith, bit_and_high 30 2 (sext16 f.immediate << 2))),
        (unchanged _ refl (ground (arith, bit_and_high 30 2 (sext16 f.immediate << 2))), tt),
      ),
    ),
  )

  -- `Encode` joins both constants of a decoded instruction, which are equal.
  again :
      (x : ℕ)
      → bit_or x (u16 f.immediate) ≡ bit_or (bit_or x (u16 (u16 f.immediate))) (u16 f.immediate)
  again x =
      sym (bit_or_twice x (u16 f.immediate))
      ∙ ap (λ t. bit_or (bit_or x t) (u16 f.immediate)) (omega arith)

  signed_again :
      (x : ℕ)
      → bit_or (bit_or x (u16 (u16 f.immediate))) 0
        ≡ bit_or (bit_or x (u16 (u16 f.immediate))) (u16 f.immediate)
  signed_again x = bit_or-zero _ ∙ ap (λ t. bit_or x t) (omega arith) ∙ again x

  unsigned_again :
      (x : ℕ)
      → bit_or (bit_or x 0) (u16 f.immediate)
        ≡ bit_or (bit_or x (u16 (u16 f.immediate))) (u16 f.immediate)
  unsigned_again x = ap (λ t. bit_or t (u16 f.immediate)) (bit_or-zero x) ∙ again x

  pub immediate-Reads : All (λ e. Reads (immediate_instruction f e.1)) two_operand_immediate_opcodes
  unfolding two_operand_immediate_opcodes immediate_instruction encode immediate_word render
      line_instruction parse_tokenized_instruction
  immediate-Reads = (
    record {
      line = _;
      back = record (immediate_instruction f "ADDIU") { unsigned_constant16 = 0 };
      rendered = refl;
      read = ground arith;
      same = λ _ _ _. ap ok (signed_again _);
    },
    (
      record {
        line = _;
        back = record (immediate_instruction f "ANDI") { signed_constant16 = 0 };
        rendered = refl;
        read = ground (arith, bit_and_high 16 16 (u16 f.immediate));
        same = λ _ _ _. ap ok (unsigned_again _);
      },
      (
        record {
          line = _;
          back = record (immediate_instruction f "ORI") { signed_constant16 = 0 };
          rendered = refl;
          read = ground (arith, bit_and_high 16 16 (u16 f.immediate));
          same = λ _ _ _. ap ok (unsigned_again _);
        },
        (
          record {
            line = _;
            back = record (immediate_instruction f "SLTI") { unsigned_constant16 = 0 };
            rendered = refl;
            read = ground arith;
            same = λ _ _ _. ap ok (signed_again _);
          },
          (
            record {
              line = _;
              back = record (immediate_instruction f "SLTIU") { unsigned_constant16 = 0 };
              rendered = refl;
              read = ground arith;
              same = λ _ _ _. ap ok (signed_again _);
            },
            (
              record {
                line = _;
                back = record (immediate_instruction f "XORI") { signed_constant16 = 0 };
                rendered = refl;
                read = ground (arith, bit_and_high 16 16 (u16 f.immediate));
                same = λ _ _ _. ap ok (unsigned_again _);
              },
              tt,
            ),
          ),
        ),
      ),
    ),
  )

  pub upper-Reads : Reads (lui_instruction f)
  unfolding lui_instruction render line_instruction parse_tokenized_instruction
  upper-Reads = unchanged _ refl (ground (arith, bit_and_high 16 16 (u16 f.immediate)))
