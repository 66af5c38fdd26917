-- ===== src/Formatting/Tests.antt =====
-- Numbers printed.
use mips.Prelude.{◌≡◌, refl, []}
use mips.Assembly.Printing.Numerals.{format_uint}
use mips.Formatting.{eight_digit_hex, format8_bit_hex, register_rows, pad}

eight_digit_hex-word : eight_digit_hex 0xbeef ≡ "0x0000beef"
unfolding eight_digit_hex format_uint pad
eight_digit_hex-word = refl

format8_bit_hex-byte : format8_bit_hex 10 ≡ "0a"
unfolding format8_bit_hex format_uint pad
format8_bit_hex-byte = refl

register_rows-two :
    register_rows 2 9 []
    ≡ "\nr9  = 0x00000000  r25 = 0x00000000\nr10 = 0x00000000  r26 = 0x00000000"
unfolding register_rows format_uint pad
register_rows-two = refl
