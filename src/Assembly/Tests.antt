-- ===== src/Assembly/Tests.antt =====
-- Lines of the package's own tests, evaluated.
use mips.Prelude.{ℕ, [], ◌∷◌, ◌≡◌, refl, true}
use mips.Isa.{ok, err, bad_usage, instruction}
use mips.Assembly.Token.{ArgToken, no_token}
use mips.Assembly.Parse.{parse_tokenized_instruction}
use mips.Assembly.Render.{constant_token}

abbrev register_token : ℕ → ArgToken
register_token r = record no_token { is_register = true; register = r }

-- ADDIU $r5, $r6, -17
addiu :
    parse_tokenized_instruction (record {
      name = "ADDIU";
      arguments = register_token 5 ∷ register_token 6 ∷ constant_token 0xffff_ffef ∷ [];
    })
    ≡ ok (record (instruction "ADDIU" (5 ∷ 6 ∷ [])) { signed_constant16 = 0xffef })
unfolding parse_tokenized_instruction
addiu = refl

-- J $r7
broken :
    parse_tokenized_instruction (record { name = "J"; arguments = register_token 7 ∷ [] })
    ≡ err (bad_usage "J")
unfolding parse_tokenized_instruction
broken = refl
