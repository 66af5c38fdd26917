-- ===== src/Web/Disassembler/Stripping.antt =====
-- The text of words without its spaces.
use Prim.Native.Char.{code}
use mathlib.Core.List.{append-nil}
use mips.Prelude.{
  ℕ, zero, suc, ◌≡◌, ◌⊎◌, refl, sym, ap, ◌∙◌, String, List, [], ◌∷◌, ◌++◌, Bool, true, false, ◌&&◌,
  not, arith, ltb, ◌==◌, inl, inr, Bool-cases, all_below, all_below-lt,
}
use mips.Assembly.Reading.Numbers.{codes}
use mips.Assembly.Reading.Tokens.{all_of}
use mips.Assembly.Printing.Numerals.{◌+++◌, digit, digits_onto, format_uint}
use mips.Assembly.Printing.ReadBack.{all_of-digits_onto}
use mips.Formatting.{pad, text_length}
use mips.Web.Disassembler.{word_text, join_with, data_text, remove, strip}

-- no character that is removed
abbrev is_dark : ℕ → Bool
is_dark c = not (c == 0x20) && not (c == 0x0a) && not (c == 0x09)

remove-append : (c : ℕ) (s t : String) → remove c (s +++ t) ≡ (remove c s +++ remove c t)
unfolding remove ◌+++◌
remove-append c String.[] t = refl
remove-append c (String.◌∷◌ d s) t = elim (Bool-cases (code d == c)) [
  | inl same ↦ rw same (remove-append c s t)
  | inr other ↦ rw other (ap (String.◌∷◌ d) (remove-append c s t))
]

strip-append : (s t : String) → strip (s +++ t) ≡ (strip s +++ strip t)
unfolding strip
strip-append s t =
    ap (λ u. remove 0x09 (remove 0x0a u)) (remove-append 0x20 s t)
    ∙ ap (remove 0x09) (remove-append 0x0a (remove 0x20 s) (remove 0x20 t))
    ∙ remove-append 0x09 (remove 0x0a (remove 0x20 s)) (remove 0x0a (remove 0x20 t))

remove-none : (c : ℕ) (s : String) → all_of (λ d. not (d == c)) (codes s) ≡ true → remove c s ≡ s
unfolding remove
remove-none c String.[] h = refl
remove-none c (String.◌∷◌ d s) h =
    let other : (code d == c) ≡ false = ground (arith, h) in
    rw other (ap (String.◌∷◌ d) (remove-none c s (ground (arith, h))))

dark_apart :
    (c : ℕ) (cs : List ℕ)
    → (c ≡ 0x20) ⊎ ((c ≡ 0x0a) ⊎ (c ≡ 0x09))
    → all_of is_dark cs ≡ true
    → all_of (λ d. not (d == c)) cs ≡ true
dark_apart c [] which h = refl
dark_apart c (d ∷ cs) which h =
    let rest = dark_apart c cs which (ground (arith, h)) in ground (arith, which, h, rest)

strip-dark : (s : String) → all_of is_dark (codes s) ≡ true → strip s ≡ s
unfolding strip
strip-dark s h =
    ap (λ u. remove 0x09 (remove 0x0a u))
      (remove-none 0x20 s (dark_apart 0x20 (codes s) (inl refl) h))
    ∙ ap (remove 0x09) (remove-none 0x0a s (dark_apart 0x0a (codes s) (inr (inl refl)) h))
    ∙ remove-none 0x09 s (dark_apart 0x09 (codes s) (inr (inr refl)) h)

pad-dark :
    (room width : ℕ) (s : String)
    → all_of is_dark (codes s) ≡ true
    → all_of is_dark (codes (pad room width s)) ≡ true
unfolding pad
pad-dark zero width s h = h
pad-dark (suc room) width s h = elim (Bool-cases (ltb (text_length s) width)) [
  | inl short ↦ rw short (pad-dark room width (String.◌∷◌ "0" s) h)
  | inr long ↦ rw long h
]

digits_dark : all_below (λ k. is_dark (code (digit k))) 16 ≡ true
unfolding all_below
digits_dark = refl

word_text-dark : (w : ℕ) → all_of is_dark (codes (word_text w)) ≡ true
unfolding format_uint
word_text-dark w = pad-dark 8 8 (digits_onto 64 16 w String.[]) (
    all_of-digits_onto is_dark 64 16 w String.[] (omega arith)
      (λ d h. all_below-lt (λ k. is_dark (code (digit k))) 16 d digits_dark h) refl)

codes-append : (s t : String) → codes (s +++ t) ≡ (codes s ++ codes t)
unfolding ◌+++◌
codes-append String.[] t = refl
codes-append (String.◌∷◌ c s) t = ap (λ cs. code c ∷ cs) (codes-append s t)

-- the digits of all words
unfoldable pub word_digits : List ℕ → List ℕ
word_digits [] = []
word_digits (w ∷ ws) = codes (word_text w) ++ word_digits ws

pub codes-data_text : (ws : List ℕ) → codes (strip (data_text ws)) ≡ word_digits ws
unfolding data_text word_digits ◌+++◌ join_with strip remove
codes-data_text [] = refl
codes-data_text (w ∷ []) =
    ap codes (strip-dark (word_text w) (word_text-dark w)) ∙ sym (append-nil (codes (word_text w)))
codes-data_text (w ∷ w' ∷ ws) =
    ap codes (strip-append (word_text w) (" " +++ data_text (w' ∷ ws)))
    ∙ codes-append (strip (word_text w)) (strip (data_text (w' ∷ ws)))
    ∙ ap (λ u. codes u ++ codes (strip (data_text (w' ∷ ws))))
        (strip-dark (word_text w) (word_text-dark w))
    ∙ ap (λ cs. codes (word_text w) ++ cs) (codes-data_text (w' ∷ ws))
