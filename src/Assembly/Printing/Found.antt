-- ===== src/Assembly/Printing/Found.antt =====
-- What the lexer finds in a line: names, symbols, arguments and a comment.
use Prim.Native.Char.{Char, code}
use mips.Prelude.{
  ℕ, ◌+◌, ◌≡◌, refl, sym, ap, subst, String, List, [], ◌∷◌, some, true, ◌&&◌, ◌||◌, ◌==◌, arith,
  inl, inr, Bool-cases, Option-cases, All,
}
use mathlib.Core.Option.{some-injective}
use mips.Isa.{Result, ok, err, bind-ok, ok-injective, panic}
use mips.Assembly.Token.{ArgToken}
use mips.Assembly.Reading.Numbers.{codes}
use mips.Assembly.Reading.Tokens.{all_of, is_empty, is_word_char, is_constant_text, parse_arg_token}
use mips.Assembly.Reading.Texts.{trim_left, trim_right, trim_space, is_space, before_comma}
use mips.Assembly.Reading.Lexer.{
  split_comment, directive_match, symbol_match, operand_of, is_blank, skip_blanks, operand,
  parse_operands,
}
use mips.Assembly.Printing.Arguments.{Reprints}
use mips.Assembly.Printing.Again.{parse_arg_token-Reprints}
use mips.Assembly.Printing.Code.{is_directive}

operand-ok : (i : ℕ) (r : Result ArgToken) (t : ArgToken) → operand i r ≡ ok t → r ≡ ok t
operand-ok i (ok t') t h = h
operand-ok i (err e) t h = absurd (cc)
operand-ok i panic t h = absurd (cc)

operand-Reprints :
    (i : ℕ) (text : String) (t : ArgToken) → operand i (parse_arg_token text) ≡ ok t → Reprints t
operand-Reprints i text t h =
    parse_arg_token-Reprints text t (operand-ok i (parse_arg_token text) t h)

-- the arguments that a line's operands are read as
pub parse_operands-Reprints :
    (i : ℕ) (texts : List String) (ts : List ArgToken)
    → parse_operands i texts ≡ ok ts
    → All Reprints ts
unfolding parse_operands
parse_operands-Reprints i [] ts h = subst (All Reprints) (ok-injective [] ts h) tt
parse_operands-Reprints i (text ∷ []) ts h =
    let (t, read, made) = bind-ok (operand i (parse_arg_token text)) _ ts h in
    subst (All Reprints) (ok-injective (t ∷ []) ts made) (operand-Reprints i text t read, tt)
parse_operands-Reprints i (text ∷ next ∷ rest) ts h = elim (Option-cases (before_comma text)) [
  | inl absent ↦ let q = rw (absent, parse_operands) at h in absurd (cc)
  | inr (cut, present) ↦
      let (t, read, later) =
        bind-ok (operand i (parse_arg_token cut)) _ ts (rw (present, parse_operands) at h) in
      let (others, read_on, made) = bind-ok (parse_operands (i + 1) (next ∷ rest)) _ ts later in
      subst (All Reprints) (ok-injective (t ∷ others) ts made) (
        operand-Reprints i cut t read,
        parse_operands-Reprints (i + 1) (next ∷ rest) others read_on,
      )
]

-- the names that directiveRegexp finds
operand_of-name : (n s : String) (m : String × String) → operand_of n s ≡ some m → m.0 ≡ n
unfolding operand_of
operand_of-name n String.[] m h = absurd (cc)
operand_of-name n (String.◌∷◌ c s) m h = elim (Bool-cases (is_blank (code c))) [
  | inr dark ↦ let q = rw dark at h in absurd (cc)
  | inl blank ↦ elim (Bool-cases (is_constant_text (codes (skip_blanks s)))) [
    | inl number ↦
        let same = some-injective (n, skip_blanks s) m (rw (number) at (rw blank at h)) in
        ap (λ p. p.0) (sym same)
    | inr bad ↦ let q = rw bad at (rw blank at h) in absurd (cc)
  ]
]

pub directive_match-name :
    (s : String) (m : String × String) → directive_match s ≡ some m → is_directive m.0 ≡ true
unfolding directive_match
directive_match-name String.[] m h = absurd (cc)
directive_match-name (String.◌∷◌ a String.[]) m h = absurd (cc)
directive_match-name (String.◌∷◌ a (String.◌∷◌ b String.[])) m h = absurd (cc)
directive_match-name (String.◌∷◌ a (String.◌∷◌ b (String.◌∷◌ c String.[]))) m h = absurd (cc)
directive_match-name (String.◌∷◌ a (String.◌∷◌ b (String.◌∷◌ c (String.◌∷◌ d String.[])))) m h =
    absurd (cc)
directive_match-name (String.◌∷◌ a (String.◌∷◌ b (String.◌∷◌ c (String.◌∷◌ d (String.◌∷◌ e s))))) m
      h =
    elim (Bool-cases
      (code a == 0x2e && code b == 0x74 && code c == 0x65 && code d == 0x78 && code e == 0x74)) [
        | inl text ↦
            subst (λ n. is_directive n ≡ true) (sym (operand_of-name "text" s m (rw text at h)))
              refl
        | inr no_text ↦
            elim (Bool-cases (
              code a == 0x2e
              && code b == 0x77
              && code c == 0x6f
              && code d == 0x72
              && code e == 0x64)) [
                | inl word ↦
                    subst (λ n. is_directive n ≡ true)
                      (sym (operand_of-name "word" s m (rw word at (rw no_text at h)))) refl
                | inr no_word ↦ let q = rw no_word at (rw no_text at h) in absurd (cc)
              ]
      ]

pub symbol_match-is_word_char :
    (s sm : String) → symbol_match s ≡ some sm → all_of is_word_char (codes sm) ≡ true
unfolding symbol_match
symbol_match-is_word_char String.[] sm h = absurd (cc)
symbol_match-is_word_char (String.◌∷◌ c String.[]) sm h = elim (Bool-cases (code c == 0x3a)) [
  | inl colon ↦
      subst (λ t. all_of is_word_char (codes t) ≡ true)
        (some-injective String.[] sm (rw colon at h)) refl
  | inr other ↦ let q = rw other at h in absurd (cc)
]
symbol_match-is_word_char (String.◌∷◌ c (String.◌∷◌ d s)) sm h =
    elim (Option-cases (symbol_match (String.◌∷◌ d s))) [
      | inl absent ↦ let q = rw absent at h in absurd (cc)
      | inr (r, present) ↦ elim (Bool-cases (is_word_char (code c))) [
        | inr other ↦ let q = rw other at (rw present at h) in absurd (cc)
        | inl word ↦
            let rest = symbol_match-is_word_char (String.◌∷◌ d s) r present in
            subst (λ t. all_of is_word_char (codes t) ≡ true)
              (some-injective (String.◌∷◌ c r) sm (rw word at (rw present at h)))
              (ground (arith, word, rest))
      ]
    ]

-- the rest of a text that ends in no space
tail : String → String
tail String.[] = String.[]
tail (String.◌∷◌ c s) = s

trim_right-tail :
    (c : Char) (s : String) → trim_right (String.◌∷◌ c s) ≡ String.◌∷◌ c s → trim_right s ≡ s
unfolding trim_right tail
trim_right-tail c s h = elim (Bool-cases (is_empty (trim_right s) && is_space (code c))) [
  | inl gone ↦ let q = rw gone at h in absurd (cc)
  | inr kept ↦ ap tail (rw kept at h)
]

trim_right-trim_right : (s : String) → trim_right (trim_right s) ≡ trim_right s
unfolding trim_right
trim_right-trim_right String.[] = refl
trim_right-trim_right (String.◌∷◌ c s) =
    elim (Bool-cases (is_empty (trim_right s) && is_space (code c))) [
      | inl gone ↦ rw gone refl
      | inr kept ↦ rw kept (rw (trim_right-trim_right s, kept) refl)
    ]

-- the comment that was found
here :
    (before c : String) (m : String × String)
    → some (before, c) ≡ some m
    → trim_right c ≡ c
    → trim_right m.1 ≡ m.1
here before c m found stable =
    subst (λ p. trim_right p.1 ≡ p.1) (some-injective (before, c) m found) stable

split_comment-trim_right :
    (s : String) (m : String × String)
    → split_comment s ≡ some m
    → trim_right s ≡ s
    → trim_right m.1 ≡ m.1
unfolding split_comment
split_comment-trim_right String.[] m h stable = absurd (cc)
split_comment-trim_right (String.◌∷◌ c String.[]) m h stable =
    elim (Bool-cases (code c == 0x23 || code c == 0x3b)) [
      | inl mark ↦ here String.[] String.[] m (rw mark at h) (trim_right-tail c String.[] stable)
      | inr other ↦ let q = rw other at h in absurd (cc)
    ]
split_comment-trim_right (String.◌∷◌ c (String.◌∷◌ d s)) m h stable =
    let behind = trim_right-tail c (String.◌∷◌ d s) stable in
    elim (Bool-cases (code c == 0x23 || code c == 0x3b)) [
      | inl mark ↦ here String.[] (String.◌∷◌ d s) m (rw mark at h) behind
      | inr no_mark ↦ elim (Bool-cases (code c == 0x2f && code d == 0x2f)) [
        | inl slashes ↦
            here String.[] s m (rw slashes at (rw no_mark at h)) (trim_right-tail d s behind)
        | inr no_slashes ↦ elim (Option-cases (split_comment (String.◌∷◌ d s))) [
          | inl absent ↦ let q = rw absent at (rw no_slashes at (rw no_mark at h)) in absurd (cc)
          | inr (r, present) ↦
              here (String.◌∷◌ c r.0) r.1 m (rw present at (rw no_slashes at (rw no_mark at h)))
                (split_comment-trim_right (String.◌∷◌ d s) r present behind)
        ]
      ]
    ]

pub split_comment-trim_space :
    (s : String) (m : String × String)
    → split_comment (trim_space s) ≡ some m
    → trim_right m.1 ≡ m.1
unfolding trim_space
split_comment-trim_space s m h =
    split_comment-trim_right (trim_right (trim_left s)) m h (trim_right-trim_right (trim_left s))
