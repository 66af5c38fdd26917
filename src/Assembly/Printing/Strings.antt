-- ===== src/Assembly/Printing/Strings.antt =====
-- Tests on the characters of texts that are put together.
use mips.Prelude.{
  ℕ, ◌≡◌, refl, ap, String, List, [], ◌∷◌, Bool, true, false, not, ◌==◌, arith, inl, inr,
  Bool-cases,
}
use mips.Assembly.Reading.Numbers.{codes, is_digit, digit_value}
use mips.Assembly.Reading.Tokens.{all_of, is_hex, is_number, is_constant_text, is_word_char}
use mips.Assembly.Printing.Numerals.{◌+++◌}

pub all_of-append :
    (p : ℕ → Bool) (s t : String)
    → all_of p (codes s) ≡ true
    → all_of p (codes t) ≡ true
    → all_of p (codes (s +++ t)) ≡ true
unfolding ◌+++◌
all_of-append p String.[] t h k = k
all_of-append p (String.◌∷◌ c s) t h k =
    let rest = all_of-append p s t (ground (arith, h)) k in ground (arith, h, rest)

pub all_of-append_false :
    (p : ℕ → Bool) (s t : String) → all_of p (codes t) ≡ false → all_of p (codes (s +++ t)) ≡ false
unfolding ◌+++◌
all_of-append_false p String.[] t k = k
all_of-append_false p (String.◌∷◌ c s) t k =
    let rest = all_of-append_false p s t k in ground (arith, rest)

pub all_of_mono :
    (p q : ℕ → Bool)
    → ((c : ℕ) → p c ≡ true → q c ≡ true)
    → (cs : List ℕ) → all_of p cs ≡ true
    → all_of q cs ≡ true
all_of_mono p q f [] h = refl
all_of_mono p q f (c ∷ cs) h =
    let here = f c (ground (arith, h)) in
    let rest = all_of_mono p q f cs (ground (arith, h)) in ground (arith, here, rest)

pub append_assoc : (s t u : String) → ((s +++ t) +++ u) ≡ (s +++ t +++ u)
unfolding ◌+++◌
append_assoc String.[] t u = refl
append_assoc (String.◌∷◌ c s) t u = ap (String.◌∷◌ c) (append_assoc s t u)

pub append_empty : (s : String) → (s +++ "") ≡ s
unfolding ◌+++◌
append_empty String.[] = refl
append_empty (String.◌∷◌ c s) = ap (String.◌∷◌ c) (append_empty s)

pub is_number-digits : (cs : List ℕ) → all_of is_digit cs ≡ true → is_number cs ≡ true
unfolding is_number
is_number-digits [] h = refl
is_number-digits (c ∷ []) h = h
is_number-digits (c ∷ d ∷ cs) h = ground (arith, h)

pub is_constant_text-digits : (cs : List ℕ) → all_of is_digit cs ≡ true → is_constant_text cs ≡ true
unfolding is_constant_text is_digit
is_constant_text-digits [] h = refl
is_constant_text-digits (c ∷ cs) h = elim (Bool-cases (c == 0x2d)) [
  | inl minus ↦ absurd (ground (arith, h, minus))
  | inr other ↦ rw other (is_number-digits (c ∷ cs) h)
]

-- no opening parenthesis
abbrev pub no_open : ℕ → Bool
no_open c = not (c == 0x28)

pub is_digit-no_open : (c : ℕ) → is_digit c ≡ true → no_open c ≡ true
unfolding is_digit
is_digit-no_open c h = ground (arith, h)

is_hex-no_open : (c : ℕ) → is_hex c ≡ true → no_open c ≡ true
unfolding is_hex digit_value is_digit
is_hex-no_open c h = ground (arith, h)

is_number-no_open : (cs : List ℕ) → is_number cs ≡ true → all_of no_open cs ≡ true
unfolding is_number
is_number-no_open [] h = refl
is_number-no_open (c ∷ []) h = all_of_mono is_digit no_open is_digit-no_open (c ∷ []) h
is_number-no_open (c ∷ d ∷ cs) h = elim (Bool-cases (all_of is_digit (c ∷ d ∷ cs))) [
  | inl digits ↦ all_of_mono is_digit no_open is_digit-no_open (c ∷ d ∷ cs) digits
  | inr other ↦
      let hex = all_of_mono is_hex no_open is_hex-no_open cs (ground (arith, h, other)) in
      ground (arith, h, other, hex)
]

pub is_constant_text-no_open : (cs : List ℕ) → is_constant_text cs ≡ true → all_of no_open cs ≡ true
unfolding is_constant_text
is_constant_text-no_open [] h = refl
is_constant_text-no_open (c ∷ cs) h = elim (Bool-cases (c == 0x2d)) [
  | inl minus ↦ let rest = is_number-no_open cs (rw minus at h) in ground (arith, minus, rest)
  | inr other ↦ is_number-no_open (c ∷ cs) (rw other at h)
]

pub is_word_char-no_open : (c : ℕ) → is_word_char c ≡ true → no_open c ≡ true
unfolding is_word_char is_digit
is_word_char-no_open c h = ground (arith, h)
