-- ===== src/Assembly/Reading/Registers.antt =====
-- The names of the registers, and `parseRegister`.
use Prim.Native.Char.{code}
use mips.Prelude.{
  refl, Option-cases, ℕ, ◌<◌, ◌≡◌, String, List, [], ◌∷◌, Option, none, some, Bool, true, arith,
  ◌&&◌, ltb, ◌==◌, str_eq, if◌then◌else◌, lookup_str, inl, inr, Bool-cases,
}
use mathlib.Core.Option.{some-injective}
use mips.Isa.{Result, ok, err, ok-injective, missing_dollar, invalid_register}

unfoldable pub register_names : List (String × ℕ)
register_names =
    ("0", 0)
    ∷ ("zero", 0)
    ∷ ("1", 1)
    ∷ ("at", 1)
    ∷ ("2", 2)
    ∷ ("v0", 2)
    ∷ ("3", 3)
    ∷ ("v1", 3)
    ∷ ("4", 4)
    ∷ ("a0", 4)
    ∷ ("5", 5)
    ∷ ("a1", 5)
    ∷ ("6", 6)
    ∷ ("a2", 6)
    ∷ ("7", 7)
    ∷ ("a3", 7)
    ∷ ("8", 8)
    ∷ ("t0", 8)
    ∷ ("9", 9)
    ∷ ("t1", 9)
    ∷ ("10", 10)
    ∷ ("t2", 10)
    ∷ ("11", 11)
    ∷ ("t3", 11)
    ∷ ("12", 12)
    ∷ ("t4", 12)
    ∷ ("13", 13)
    ∷ ("t5", 13)
    ∷ ("14", 14)
    ∷ ("t6", 14)
    ∷ ("15", 15)
    ∷ ("t7", 15)
    ∷ ("16", 16)
    ∷ ("s0", 16)
    ∷ ("17", 17)
    ∷ ("s1", 17)
    ∷ ("18", 18)
    ∷ ("s2", 18)
    ∷ ("19", 19)
    ∷ ("s3", 19)
    ∷ ("20", 20)
    ∷ ("s4", 20)
    ∷ ("21", 21)
    ∷ ("s5", 21)
    ∷ ("22", 22)
    ∷ ("s6", 22)
    ∷ ("23", 23)
    ∷ ("s7", 23)
    ∷ ("24", 24)
    ∷ ("t8", 24)
    ∷ ("25", 25)
    ∷ ("t9", 25)
    ∷ ("26", 26)
    ∷ ("k0", 26)
    ∷ ("27", 27)
    ∷ ("k1", 27)
    ∷ ("28", 28)
    ∷ ("gp", 28)
    ∷ ("29", 29)
    ∷ ("sp", 29)
    ∷ ("30", 30)
    ∷ ("s8", 30)
    ∷ ("fp", 30)
    ∷ ("31", 31)
    ∷ ("ra", 31)
    ∷ ("r0", 0)
    ∷ ("r1", 1)
    ∷ ("r2", 2)
    ∷ ("r3", 3)
    ∷ ("r4", 4)
    ∷ ("r5", 5)
    ∷ ("r6", 6)
    ∷ ("r7", 7)
    ∷ ("r8", 8)
    ∷ ("r9", 9)
    ∷ ("r10", 10)
    ∷ ("r11", 11)
    ∷ ("r12", 12)
    ∷ ("r13", 13)
    ∷ ("r14", 14)
    ∷ ("r15", 15)
    ∷ ("r16", 16)
    ∷ ("r17", 17)
    ∷ ("r18", 18)
    ∷ ("r19", 19)
    ∷ ("r20", 20)
    ∷ ("r21", 21)
    ∷ ("r22", 22)
    ∷ ("r23", 23)
    ∷ ("r24", 24)
    ∷ ("r25", 25)
    ∷ ("r26", 26)
    ∷ ("r27", 27)
    ∷ ("r28", 28)
    ∷ ("r29", 29)
    ∷ ("r30", 30)
    ∷ ("r31", 31)
    ∷ []

abbrev pub register_or : String → Option ℕ → Result ℕ
register_or token_str (some reg_num) = ok reg_num
register_or token_str none = err (invalid_register token_str)

unfoldable pub parse_register : String → Result ℕ
unfolding register_names
parse_register String.[] = err (missing_dollar "")
parse_register (String.◌∷◌ c raw_name) =
    if code c == 0x24
    then register_or (String.◌∷◌ c raw_name) (lookup_str raw_name register_names)
    else err (missing_dollar (String.◌∷◌ c raw_name))

are_below : List (String × ℕ) → Bool
are_below [] = true
are_below (entry ∷ rest) = ltb entry.1 32 && are_below rest

lookup_str-lt :
    (m : List (String × ℕ)) (k : String) (r : ℕ)
    → are_below m ≡ true
    → lookup_str k m ≡ some r
    → r < 32
unfolding are_below
lookup_str-lt [] k r h found = absurd (cc)
lookup_str-lt ((j, v) ∷ m) k r h found = elim (Bool-cases (str_eq j k)) [
  | inl same ↦ let p = some-injective v r (rw same at found) in ground (arith, h, p)
  | inr other ↦ lookup_str-lt m k r (ground (arith, h)) (rw other at found)
]

register_names-lt : are_below register_names ≡ true
unfolding are_below register_names
register_names-lt = refl

pub parse_register-lt : (token_str : String) (r : ℕ) → parse_register token_str ≡ ok r → r < 32
unfolding parse_register
parse_register-lt String.[] r h = absurd (cc)
parse_register-lt (String.◌∷◌ c raw_name) r h = elim (Bool-cases (code c == 0x24)) [
  | inr other ↦ let q = rw other at h in absurd (cc)
  | inl dollar ↦ elim (Option-cases (lookup_str raw_name register_names)) [
    | inl absent ↦ let q = rw absent at (rw dollar at h) in absurd (cc)
    | inr (n, present) ↦
        let p : n ≡ r = ok-injective n r (rw present at (rw dollar at h)) in
        omega (arith, p, lookup_str-lt register_names raw_name n register_names-lt present)
  ]
]
