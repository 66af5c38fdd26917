-- ===== src/Assembly/Reading/Bounds.antt =====
-- The tokens that `ParseArgToken` makes.
use mips.Prelude.{
  ℕ, ◌+◌, ◌<◌, ◌^◌, ◌≡◌, ◌∙◌, refl, subst, String, Option, some, none, Bool, true, false, arith,
  not, ◌&&◌, ◌==◌, bit_and, if◌then◌else◌, inl, inr, Bool-cases,
}
use mips.Isa.{bad_token, ok, err, u16, ok-injective, bind-ok, Result-cases}
use mips.Assembly.Token.{ArgToken}
use mips.Assembly.Reading.Registers.{parse_register, parse_register-lt}
use mips.Assembly.Reading.Numbers.{codes, parse_constant, parse_constant-lt}
use mips.Assembly.Reading.Tokens.{
  all_of, is_constant_text, is_word_char, is_memory_text, is_empty, before_close, split_if_closed,
  memory_of, parse_offset, parse_register_arg_token, parse_constant_arg_token,
  parse_symbol_arg_token, parse_memory_arg_token, parse_arg_token,
}

abbrev pub count : Bool → ℕ
count true = 1
count false = 0

-- One kind, and values within the bounds of the types: registers among the 32, a constant of 32
-- bits, an offset of 16.
pub record IsArgToken (t : ArgToken) : Type 0 where
  pub one_kind :
      count t.is_register + count t.is_constant + count t.is_symbol + count t.is_memory ≡ 1
  pub register-lt : t.register < 32
  pub constant-lt : t.constant < 2 ^ 32
  pub base-lt : t.mem_register < 32
  pub offset-lt : t.mem_offset < 2 ^ 16

pub parse_offset-lt : (text : String) (o : ℕ) → parse_offset text ≡ ok o → o < 2 ^ 16
unfolding parse_offset
parse_offset-lt text o h = elim (Bool-cases (is_empty text)) [
  | inl empty ↦ let p = ok-injective 0 o (rw empty at h) in omega (arith, p)
  | inr more ↦
      let (n, read, checked) = bind-ok (parse_constant text) _ o (rw more at h) in
      elim (Bool-cases
        (not (bit_and n 0xffff8000 == 0xffff8000) && not (bit_and n 0xffff8000 == 0))) [
          | inl out ↦ let q = rw out at checked in absurd (cc)
          | inr fits ↦ let p = ok-injective (u16 n) o (rw fits at checked) in omega (arith, p)
        ]
]

memory_of-IsArgToken :
    (s : String) (pieces : Option (String × String)) (t : ArgToken)
    → memory_of s pieces ≡ ok t
    → IsArgToken t
memory_of-IsArgToken s none t h = absurd (cc)
memory_of-IsArgToken s (some pieces) t h =
    let (reg, named, later) = bind-ok (parse_register pieces.1) _ t h in
    let (offset, read, made) = bind-ok (parse_offset pieces.0) _ t later in
    let reg-lt = parse_register-lt pieces.1 reg named in
    let offset-lt = parse_offset-lt pieces.0 offset read in
    subst IsArgToken (ok-injective _ t made) (record {
      one_kind = refl;
      register-lt = omega arith;
      constant-lt = omega arith;
      base-lt = reg-lt;
      offset-lt = offset-lt;
    })

register-IsArgToken : (s : String) (t : ArgToken) → parse_register_arg_token s ≡ ok t → IsArgToken t
unfolding parse_register_arg_token
register-IsArgToken s t h =
    let (reg, named, made) = bind-ok (parse_register s) _ t h in
    subst IsArgToken (ok-injective _ t made) (record {
      one_kind = refl;
      register-lt = parse_register-lt s reg named;
      constant-lt = omega arith;
      base-lt = omega arith;
      offset-lt = omega arith;
    })

constant-IsArgToken : (s : String) (t : ArgToken) → parse_constant_arg_token s ≡ ok t → IsArgToken t
unfolding parse_constant_arg_token
constant-IsArgToken s t h =
    let (c, read, made) = bind-ok (parse_constant s) _ t h in
    subst IsArgToken (ok-injective _ t made) (record {
      one_kind = refl;
      register-lt = omega arith;
      constant-lt = parse_constant-lt s c read;
      base-lt = omega arith;
      offset-lt = omega arith;
    })

symbol-IsArgToken : (s : String) (t : ArgToken) → parse_symbol_arg_token s ≡ ok t → IsArgToken t
unfolding parse_symbol_arg_token
symbol-IsArgToken s t h = subst IsArgToken (ok-injective _ t h) (record {
  one_kind = refl;
  register-lt = omega arith;
  constant-lt = omega arith;
  base-lt = omega arith;
  offset-lt = omega arith;
})

-- the token of a text that names no register
other-IsArgToken :
    (s : String) (t : ArgToken)
    → (if is_constant_text (codes s)
        then parse_constant_arg_token s
        else if all_of is_word_char (codes s)
        then parse_symbol_arg_token s
        else if is_memory_text s
        then parse_memory_arg_token s
        else err (bad_token s))
      ≡ ok t
    → IsArgToken t
unfolding parse_memory_arg_token
other-IsArgToken s t h = elim (Bool-cases (is_constant_text (codes s))) [
  | inl number ↦ constant-IsArgToken s t (rw number at h)
  | inr no_number ↦ elim (Bool-cases (all_of is_word_char (codes s))) [
    | inl word ↦ symbol-IsArgToken s t (rw word at (rw no_number at h))
    | inr no_word ↦ elim (Bool-cases (is_memory_text s)) [
      | inl memory ↦
          memory_of-IsArgToken s (split_if_closed (before_close s)) t
            (rw memory at (rw no_word at (rw no_number at h)))
      | inr bad ↦ let q = rw bad at (rw no_word at (rw no_number at h)) in absurd (cc)
    ]
  ]
]

-- A token that `ParseArgToken` makes is of exactly one kind, and its registers are below 32, its
-- constant is below 2 ^ 32 and its offset below 2 ^ 16.
pub parse_arg_token-IsArgToken :
    (token_str : String) (t : ArgToken) → parse_arg_token token_str ≡ ok t → IsArgToken t
unfolding parse_arg_token
parse_arg_token-IsArgToken s t h = elim (Result-cases (parse_register_arg_token s)) [
  | inl (r, named) ↦ register-IsArgToken s t (named ∙ (rw named at h))
  | inr (inl (e, other)) ↦ other-IsArgToken s t (rw other at h)
  | inr (inr never) ↦ let q = rw never at h in absurd (cc)
]
