-- ===== src/Examples/Tokens.antt =====
-- Texts of tokens, read.
use mips.Prelude.{◌≡◌, refl, true}
use mips.Isa.{ok, err, bad_token, offset_out_of_bounds}
use mips.Assembly.Token.{ArgToken, no_token}
use mips.Assembly.Reading.Numbers.{parse_constant}
use mips.Assembly.Reading.Tokens.{parse_arg_token}
use mips.Assembly.Reading.Bounds.{IsArgToken, parse_arg_token-IsArgToken}

abbrev memory_token : ArgToken
memory_token = record no_token { is_memory = true; mem_register = 29; mem_offset = 0xffe2 }

memory_text : parse_arg_token "-30($sp)" ≡ ok memory_token
unfolding parse_arg_token
memory_text = refl

symbol_text :
    parse_arg_token "loop_1" ≡ ok (record no_token { is_symbol = true; symbol = "loop_1" })
unfolding parse_arg_token
symbol_text = refl

constant_text :
    parse_arg_token "-0x10" ≡ ok (record no_token { is_constant = true; constant = 0xffff_fff0 })
unfolding parse_arg_token
constant_text = refl

bad_text : parse_arg_token "$r32" ≡ err (bad_token "$r32")
unfolding parse_arg_token
bad_text = refl

far_offset : parse_arg_token "0x8000($5)" ≡ err (offset_out_of_bounds "0x8000")
unfolding parse_arg_token
far_offset = refl

-- a constant past 32 bits is no error
large_constant : parse_constant "0x100000000" ≡ ok 0
unfolding parse_constant
large_constant = refl

parse_arg_token-IsArgToken_example : IsArgToken memory_token
parse_arg_token-IsArgToken_example = parse_arg_token-IsArgToken "-30($sp)" memory_token memory_text
