-- ===== src/Prelude/Names.antt =====
-- Membership of a text in a list of texts: the `case "A", "B":` of a Go switch.
use mathlib.Core.Path.{◌≡◌, sym, subst}
use mathlib.Core.Logic.{inl, inr}
use mathlib.Core.Bool.{Bool, true, false, ◌||◌}
use mathlib.Core.List.{List, [], ◌∷◌}
use native.Mathlib.Omega.{arith}
use Prim.Native.String.{String}
use text.Mathlib.Text.{◌==◌ as str_eq}
use text.Mathlib.TextEquality.{eq_iff}
use mips.Prelude.Tests.{Bool-cases}
use mips.Prelude.Lists.{All}

abbrev pub is_one_of : String → List String → Bool
is_one_of s [] = false
is_one_of s (t ∷ ts) = str_eq s t || is_one_of s ts

-- What holds of each text of the list holds of a text that is in it.
pub is_one_of-all {ℓ} :
    (P : String → Type ℓ) (s : String) (ts : List String) → is_one_of s ts ≡ true → All P ts → P s
is_one_of-all P s [] h all = absurd (cc)
is_one_of-all P s (t ∷ ts) h all = elim (Bool-cases (str_eq s t)) [
  | inl same ↦ subst P (sym ((eq_iff s t).0 same)) all.0
  | inr other ↦ is_one_of-all P s ts (ground (arith)) all.1
]
