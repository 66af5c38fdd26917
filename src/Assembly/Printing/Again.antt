-- ===== src/Assembly/Printing/Again.antt =====
-- An argument that is read is printed as a text that is read as the same argument.
use mips.Prelude.{
  ◌≡◌, sym, ◌∙◌, subst, String, Option, none, some, true, inl, inr, Bool-cases, if◌then◌else◌,
}
use mips.Isa.{ok, err, bind-ok, ok-injective, Result-cases, bad_token}
use mips.Assembly.Token.{ArgToken}
use mips.Assembly.Reading.Registers.{parse_register, parse_register-lt}
use mips.Assembly.Reading.Numbers.{codes, parse_constant, parse_constant-lt}
use mips.Assembly.Reading.Bounds.{parse_offset-lt}
use mips.Assembly.Reading.Tokens.{
  all_of, is_constant_text, is_word_char, is_memory_text, before_close, split_if_closed, memory_of,
  parse_offset, parse_arg_token, parse_register_arg_token, parse_constant_arg_token,
  parse_symbol_arg_token, parse_memory_arg_token,
}
use mips.Assembly.Printing.Arguments.{Reprints, register_token-Reprints, constant_token-Reprints}
use mips.Assembly.Printing.Memory.{memory_token-Reprints, symbol_token-Reprints, symbol_token}

register-Reprints : (s : String) (t : ArgToken) → parse_register_arg_token s ≡ ok t → Reprints t
unfolding parse_register_arg_token
register-Reprints s t h =
    let (reg, named, made) = bind-ok (parse_register s) _ t h in
    subst Reprints (ok-injective _ t made)
      (register_token-Reprints reg (parse_register-lt s reg named))

constant-Reprints : (s : String) (t : ArgToken) → parse_constant_arg_token s ≡ ok t → Reprints t
unfolding parse_constant_arg_token
constant-Reprints s t h =
    let (c, read, made) = bind-ok (parse_constant s) _ t h in
    subst Reprints (ok-injective _ t made) (constant_token-Reprints c (parse_constant-lt s c read))

memory-Reprints :
    (s : String) (pieces : Option (String × String)) (t : ArgToken)
    → memory_of s pieces ≡ ok t
    → Reprints t
memory-Reprints s none t h = absurd (cc)
memory-Reprints s (some pieces) t h =
    let (reg, named, later) = bind-ok (parse_register pieces.1) _ t h in
    let (offset, read, made) = bind-ok (parse_offset pieces.0) _ t later in
    subst Reprints (ok-injective _ t made) (
      memory_token-Reprints offset reg (parse_offset-lt pieces.0 offset read)
        (parse_register-lt pieces.1 reg named))

symbol-Reprints :
    (s : String) (t : ArgToken)
    → parse_arg_token s ≡ ok t
    → all_of is_word_char (codes s) ≡ true
    → parse_symbol_arg_token s ≡ ok t
    → Reprints t
unfolding parse_symbol_arg_token
symbol-Reprints s t whole word h =
    let same : symbol_token s ≡ t = ok-injective (symbol_token s) t h in
    subst Reprints same (symbol_token-Reprints s (rw (sym same) at whole) word)

other-Reprints :
    (s : String) (t : ArgToken)
    → parse_arg_token s ≡ ok t
    → (if is_constant_text (codes s)
        then parse_constant_arg_token s
        else if all_of is_word_char (codes s)
        then parse_symbol_arg_token s
        else if is_memory_text s
        then parse_memory_arg_token s
        else err (bad_token s))
      ≡ ok t
    → Reprints t
unfolding parse_memory_arg_token
other-Reprints s t whole h = elim (Bool-cases (is_constant_text (codes s))) [
  | inl number ↦ constant-Reprints s t (rw number at h)
  | inr no_number ↦ elim (Bool-cases (all_of is_word_char (codes s))) [
    | inl word ↦ symbol-Reprints s t whole word (rw word at (rw no_number at h))
    | inr no_word ↦ elim (Bool-cases (is_memory_text s)) [
      | inl memory ↦
          memory-Reprints s (split_if_closed (before_close s)) t
            (rw memory at (rw no_word at (rw no_number at h)))
      | inr bad ↦ let q = rw bad at (rw no_word at (rw no_number at h)) in absurd (cc)
    ]
  ]
]

pub parse_arg_token-Reprints : (s : String) (t : ArgToken) → parse_arg_token s ≡ ok t → Reprints t
unfolding parse_arg_token
parse_arg_token-Reprints s t h = elim (Result-cases (parse_register_arg_token s)) [
  | inl (r, named) ↦ register-Reprints s t (named ∙ (rw named at h))
  | inr (inl (e, other)) ↦ other-Reprints s t h (rw other at h)
  | inr (inr never) ↦ let q = rw never at h in absurd (cc)
]
