-- ===== src/Prelude/Assoc.antt =====
-- Go's maps as association lists. The order of the list is an iteration order of the map.
use Prim.Native.Nat.{ℕ}
use Prim.Native.String.{String}
use mathlib.Core.Path.{◌≡◌, refl, sym, subst, ◌∙◌}
use mathlib.Core.Logic.{◌≢◌, inl, inr}
use mathlib.Core.Bool.{false}
use mathlib.Core.Option.{Option, none, some, some-injective}
use mathlib.Core.List.{List, [], ◌∷◌}
use native.Mathlib.Omega.{arith}
use text.Mathlib.Text.{◌==◌ as str_eq}
use text.Mathlib.TextEquality.{eq_iff}
use mips.Prelude.Tests.{◌==◌, ==_iff, Bool-cases, if◌then◌else◌}
use mips.Prelude.Lists.{All}

-- m[k] of a map with uint32 keys
module _ {ℓ} {V : Type ℓ} where
  abbrev pub lookup : ℕ → List (ℕ × V) → Option V
  lookup k [] = none
  lookup k ((j, v) ∷ m) = if j == k then some v else lookup k m

  -- m[k] = v
  abbrev pub insert : ℕ → V → List (ℕ × V) → List (ℕ × V)
  insert k v [] = (k, v) ∷ []
  insert k v (entry ∷ m) = if entry.0 == k then (k, v) ∷ m else entry ∷ insert k v m

  -- delete(m, k)
  abbrev pub remove : ℕ → List (ℕ × V) → List (ℕ × V)
  remove k [] = []
  remove k (entry ∷ m) = if entry.0 == k then m else entry ∷ remove k m

  pub remove-insert :
      (m : List (ℕ × V)) (k : ℕ) (v : V) (other : ℕ)
      → k ≢ other
      → remove other (insert k v m) ≡ insert k v (remove other m)
  remove-insert [] k v other h = ground arith
  remove-insert (entry ∷ m) k v other h = ground (arith, remove-insert m k v other h)

  pub remove-insert_self : (m : List (ℕ × V)) (k : ℕ) (v : V) → remove k (insert k v m) ≡ remove k m
  remove-insert_self [] k v = ground arith
  remove-insert_self (entry ∷ m) k v = ground (arith, remove-insert_self m k v)

  pub lookup-remove :
      (m : List (ℕ × V)) (k other : ℕ) → k ≢ other → lookup other (remove k m) ≡ lookup other m
  lookup-remove [] k other h = refl
  lookup-remove (entry ∷ m) k other h = ground (arith, lookup-remove m k other h)

  -- A read after a write.
  pub lookup-insert :
      (m : List (ℕ × V)) (k : ℕ) (v : V) (other : ℕ)
      → lookup other (insert k v m) ≡ (if k == other then some v else lookup other m)
  lookup-insert [] k v other = refl
  lookup-insert (entry ∷ m) k v other = ground (arith, lookup-insert m k v other)

-- What holds of every entry holds of an entry that is found.
module _ {ℓ κ} {V : Type ℓ} (P : ℕ × V → Type κ) where
  pub All-lookup : (m : List (ℕ × V)) (k : ℕ) {v : V} → All P m → lookup k m ≡ some v → P (k, v)
  All-lookup [] k h e = absurd (cc)
  All-lookup ((j, w) ∷ m) k {v} h e = elim (Bool-cases (j == k)) [
    | inl same ↦ subst P (pair_eq ((==_iff j k).0 same) (some-injective _ _ (rw same at e))) h.0
    | inr other ↦ All-lookup m k h.1 (rw other at e)
  ]
    where
      pair_eq : j ≡ k → w ≡ v → ◌≡◌ {A = ℕ × V} (j, w) (k, v)
      pair_eq p q = λ i. (p i, q i)

  pub All-insert : (m : List (ℕ × V)) (k : ℕ) (v : V) → All P m → P (k, v) → All P (insert k v m)
  All-insert [] k v h p = (p, tt)
  All-insert (entry ∷ m) k v h p = elim (Bool-cases (entry.0 == k)) [
    | inl same ↦ rw same (p, h.1)
    | inr other ↦ rw other (h.0, All-insert m k v h.1 p)
  ]

  pub All-remove : (m : List (ℕ × V)) (k : ℕ) → All P m → All P (remove k m)
  All-remove [] k h = h
  All-remove (entry ∷ m) k h = elim (Bool-cases (entry.0 == k)) [
    | inl same ↦ rw same h.1
    | inr other ↦ rw other (h.0, All-remove m k h.1)
  ]

-- m[k] of a map with string keys
module _ {ℓ} {V : Type ℓ} where
  abbrev pub lookup_str : String → List (String × V) → Option V
  lookup_str k [] = none
  lookup_str k ((j, v) ∷ m) = if str_eq j k then some v else lookup_str k m

  -- m[k] = v
  abbrev pub insert_str : String → V → List (String × V) → List (String × V)
  insert_str k v [] = (k, v) ∷ []
  insert_str k v (entry ∷ m) = if str_eq entry.0 k then (k, v) ∷ m else entry ∷ insert_str k v m

  pub lookup_str-insert_str :
      (m : List (String × V)) (k : String) (v : V) (other : String)
      → lookup_str other (insert_str k v m)
        ≡ (if str_eq k other then some v else lookup_str other m)
  lookup_str-insert_str [] k v other = refl
  lookup_str-insert_str ((j, w) ∷ m) k v other = elim (Bool-cases (str_eq j k)) [
    | inl same ↦ rw same (
        rw ((eq_iff j k).0 same) (elim (Bool-cases (str_eq k other)) [
          | inl found ↦ rw found refl
          | inr elsewhere ↦ rw elsewhere refl
        ]))
    | inr differ ↦ rw differ (elim (Bool-cases (str_eq j other)) [
      | inl found ↦ rw found (elim (Bool-cases (str_eq k other)) [
        | inl also ↦
            absurd (other_key ((eq_iff j other).0 found ∙ sym ((eq_iff k other).0 also)) differ)
        | inr apart ↦ rw apart refl
      ])
      | inr elsewhere ↦ rw elsewhere (lookup_str-insert_str m k v other)
    ])
  ]
    where
      other_key : j ≡ k → str_eq j k ≢ false
      other_key p q = let r = (eq_iff j k).1 p in cc
