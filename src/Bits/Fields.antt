-- ===== src/Bits/Fields.antt =====
-- Masks and disjoint fields as arithmetic, at every width.
use native.Mathlib.Nat.{pow-suc, one-le-pow, div-add-mod'}
use Prim.Native.Nat.{differ}
use mathlib.Core.Path.{ap₂}
use mips.Prelude.{
  ℕ, zero, suc, ◌+◌, ◌-◌, ◌*◌, ◌/◌, ◌%◌, ◌^◌, ◌≤◌, ◌<◌, bit_and, bit_or, bit_xor, ◌≡◌, refl, ap,
  arith, ◌∙◌, sym,
}
use mips.Bits.Step.{
  zero-bit_and, zero-bit_or, zero-bit_xor, bit_and_step, bit_or_step, bit_xor_step,
}

-- Halving an argument lowers it: recursion on a bound.
bit_or-zero_below : (n a : ℕ) → a ≤ n → bit_or a 0 ≡ a
bit_or-zero_below n zero h = refl
bit_or-zero_below zero (suc a) h = absurd (omega arith)
bit_or-zero_below (suc n) (suc a) h =
    omega (arith, bit_or_step (suc a) 0, bit_or-zero_below n (suc a / 2) (omega arith))

bit_and-zero_below : (n a : ℕ) → a ≤ n → bit_and a 0 ≡ 0
bit_and-zero_below n zero h = refl
bit_and-zero_below zero (suc a) h = absurd (omega arith)
bit_and-zero_below (suc n) (suc a) h =
    omega (arith, bit_and_step (suc a) 0, bit_and-zero_below n (suc a / 2) (omega arith))

bit_or-self_below : (n a : ℕ) → a ≤ n → bit_or a a ≡ a
bit_or-self_below n zero h = refl
bit_or-self_below zero (suc a) h = absurd (omega arith)
bit_or-self_below (suc n) (suc a) h =
    omega (arith, bit_or_step (suc a) (suc a), bit_or-self_below n (suc a / 2) (omega arith))

pub bit_or-zero : (a : ℕ) → bit_or a 0 ≡ a
bit_or-zero a = bit_or-zero_below a a (omega arith)

pub bit_and-zero : (a : ℕ) → bit_and a 0 ≡ 0
bit_and-zero a = bit_and-zero_below a a (omega arith)

pub bit_or_self : (a : ℕ) → bit_or a a ≡ a
bit_or_self a = bit_or-self_below a a (omega arith)

-- A field one bit higher is twice the field.
double_field : (x n : ℕ) → x * 2 ^ suc n ≡ 2 * (x * 2 ^ n)
double_field x n = omega (arith, ap (λ (p : ℕ). x * p) (pow-suc 2 n))

halved : (k q r : ℕ) → (q * 2 ^ suc k + r) / 2 ≡ q * 2 ^ k + r / 2
halved k q r = omega (arith, double_field q k)

-- The high part of a word takes no part in `|` with a number below it.
pub bit_or_low :
    (k q r s : ℕ) → r < 2 ^ k → s < 2 ^ k → bit_or (q * 2 ^ k + r) s ≡ q * 2 ^ k + bit_or r s
bit_or_low zero q zero zero h g = omega (arith, bit_or-zero (q * 1 + 0), bit_or-zero 0)
bit_or_low zero q (suc r) s h g = absurd (omega arith)
bit_or_low zero q zero (suc s) h g = absurd (omega arith)
bit_or_low (suc k) q r s h g = omega (
  arith,
  bit_or_step (q * 2 ^ suc k + r) s,
  bit_or_step r s,
  double_field q k,
  pow-suc 2 k,
  shifted,
  bit_or_low k q (r / 2) (s / 2) (omega (arith, pow-suc 2 k)) (omega (arith, pow-suc 2 k)),
)
  where
    shifted : bit_or ((q * 2 ^ suc k + r) / 2) (s / 2) ≡ bit_or (q * 2 ^ k + r / 2) (s / 2)
    shifted = ap (λ (t : ℕ). bit_or t (s / 2)) (halved k q r)

-- `|` of disjoint fields is a sum.
pub bit_or_disjoint : (k q r : ℕ) → r < 2 ^ k → bit_or (q * 2 ^ k) r ≡ q * 2 ^ k + r
bit_or_disjoint k q r h =
    ap (λ (t : ℕ). bit_or t r) (omega arith)
    ∙ bit_or_low k q 0 r (one-le-pow k 2 (omega arith)) h
    ∙ ap (λ (t : ℕ). q * 2 ^ k + t) (zero-bit_or r)

pub bit_or_sum : (k x r : ℕ) → x % 2 ^ k ≡ 0 → r < 2 ^ k → bit_or x r ≡ x + r
bit_or_sum k x r aligned h =
    let whole : x ≡ x / 2 ^ k * 2 ^ k = omega (arith, div-add-mod' x (2 ^ k)) in
    rw whole (bit_or_disjoint k (x / 2 ^ k) r h)

-- Three and four fields, each below the lowest bit of those before it.
pub bit_or_sum3 :
    (k l a b c : ℕ)
    → a % 2 ^ k ≡ 0
    → b < 2 ^ k
    → (a + b) % 2 ^ l ≡ 0
    → c < 2 ^ l
    → bit_or (bit_or a b) c ≡ a + b + c
bit_or_sum3 k l a b c ha hb hab hc = rw (bit_or_sum k a b ha hb) (bit_or_sum l (a + b) c hab hc)

pub bit_or_sum4 :
    (k l m a b c d : ℕ)
    → a % 2 ^ k ≡ 0
    → b < 2 ^ k
    → (a + b) % 2 ^ l ≡ 0
    → c < 2 ^ l
    → (a + b + c) % 2 ^ m ≡ 0
    → d < 2 ^ m
    → bit_or (bit_or (bit_or a b) c) d ≡ a + b + c + d
bit_or_sum4 k l m a b c d ha hb hab hc habc hd =
    rw (bit_or_sum3 k l a b c ha hb hab hc) (bit_or_sum m (a + b + c) d habc hd)

-- A second `|` with the same number changes nothing.
bit_or_twice_below : (n x y : ℕ) → x ≤ n → bit_or (bit_or x y) y ≡ bit_or x y
bit_or_twice_below n zero y h = rw (zero-bit_or y) (bit_or_self y)
bit_or_twice_below zero (suc x) y h = absurd (omega arith)
bit_or_twice_below (suc n) (suc x) y h =
    let half : bit_or (suc x) y / 2 ≡ bit_or (suc x / 2) (y / 2) =
      omega (arith, bit_or_step (suc x) y) in
    omega (
      arith,
      bit_or_step (bit_or (suc x) y) y,
      bit_or_step (suc x) y,
      ap (λ (t : ℕ). bit_or t (y / 2)) half,
      bit_or_twice_below n (suc x / 2) (y / 2) (omega arith),
    )

pub bit_or_twice : (x y : ℕ) → bit_or (bit_or x y) y ≡ bit_or x y
bit_or_twice x y = bit_or_twice_below x x y (omega arith)

-- `|` with a field that is there already.
pub bit_or_again : (k x r : ℕ) → x % 2 ^ k ≡ 0 → r < 2 ^ k → bit_or (x + r) r ≡ x + r
bit_or_again k x r aligned h =
    let whole : x ≡ x / 2 ^ k * 2 ^ k = omega (arith, div-add-mod' x (2 ^ k)) in
    rw whole
      (bit_or_low k (x / 2 ^ k) r r h h ∙ ap (λ (t : ℕ). x / 2 ^ k * 2 ^ k + t) (bit_or_self r))

bit_and_low_mask : (k q r : ℕ) → r < 2 ^ k → bit_and (q * 2 ^ k + r) (2 ^ k - 1) ≡ r
bit_and_low_mask zero q r h = omega (arith, bit_and-zero (q * 2 ^ 0 + r))
bit_and_low_mask (suc k) q r h = omega (
  arith,
  bit_and_step (q * 2 ^ suc k + r) (2 ^ suc k - 1),
  pow-suc 2 k,
  one-le-pow k 2 (omega arith),
  ap₂ bit_and (halved k q r) smaller,
  bit_and_low_mask k q (r / 2) (omega (arith, pow-suc 2 k)),
  double_field q k,
)
  where
    smaller : (2 ^ suc k - 1) / 2 ≡ 2 ^ k - 1
    smaller = omega (arith, pow-suc 2 k, one-le-pow k 2 (omega arith))

bit_and_high_mask :
    (k q r c : ℕ) → r < 2 ^ k → bit_and (q * 2 ^ k + r) (c * 2 ^ k) ≡ bit_and q c * 2 ^ k
bit_and_high_mask zero q r c h =
    let whole : q * 2 ^ 0 + r ≡ q = omega arith in
    let mask : c * 2 ^ 0 ≡ c = omega arith in ap₂ bit_and whole mask ∙ omega arith
bit_and_high_mask (suc k) q r c h = omega (
  arith,
  bit_and_step (q * 2 ^ suc k + r) (c * 2 ^ suc k),
  pow-suc 2 k,
  ap₂ bit_and (halved k q r) half_mask,
  bit_and_high_mask k q (r / 2) c (omega (arith, pow-suc 2 k)),
  double_field q k,
  double_field c k,
  double_field (bit_and q c) k,
)
  where
    half_mask : c * 2 ^ suc k / 2 ≡ c * 2 ^ k
    half_mask = omega (arith, double_field c k)

-- A mask of the `k` low bits.
pub bit_and_mask : (k a : ℕ) → bit_and a (2 ^ k - 1) ≡ a % 2 ^ k
bit_and_mask k a =
    ap (λ (t : ℕ). bit_and t (2 ^ k - 1)) (sym (div-add-mod' a (2 ^ k)))
    ∙ bit_and_low_mask k (a / 2 ^ k) (a % 2 ^ k) (omega (arith, one-le-pow k 2 (omega arith)))

-- A mask of the `m` bits above the `k` low ones.
pub bit_and_high : (m k a : ℕ) → bit_and a ((2 ^ m - 1) * 2 ^ k) ≡ a / 2 ^ k % 2 ^ m * 2 ^ k
bit_and_high m k a =
    ap (λ (t : ℕ). bit_and t ((2 ^ m - 1) * 2 ^ k)) (sym (div-add-mod' a (2 ^ k)))
    ∙ bit_and_high_mask k (a / 2 ^ k) (a % 2 ^ k) (2 ^ m - 1)
        (omega (arith, one-le-pow k 2 (omega arith)))
    ∙ ap (λ (t : ℕ). t * 2 ^ k) (bit_and_mask m (a / 2 ^ k))

bit_and-le_below : (n a b : ℕ) → a ≤ n → bit_and a b ≤ a
bit_and-le_below n zero b h = omega (arith, zero-bit_and b)
bit_and-le_below zero (suc a) b h = absurd (omega arith)
bit_and-le_below (suc n) (suc a) b h =
    omega (arith, bit_and_step (suc a) b, bit_and-le_below n (suc a / 2) (b / 2) (omega arith))

pub bit_and-le : (a b : ℕ) → bit_and a b ≤ a
bit_and-le a b = bit_and-le_below a a b (omega arith)

pub bit_or-lt : (k a b : ℕ) → a < 2 ^ k → b < 2 ^ k → bit_or a b < 2 ^ k
bit_or-lt zero zero zero h g = omega (arith, bit_or-zero 0)
bit_or-lt zero (suc a) b h g = absurd (omega arith)
bit_or-lt zero zero (suc b) h g = absurd (omega arith)
bit_or-lt (suc k) a b h g = omega (
  arith,
  bit_or_step a b,
  pow-suc 2 k,
  bit_or-lt k (a / 2) (b / 2) (omega (arith, pow-suc 2 k)) (omega (arith, pow-suc 2 k)),
)

differ-le : (a b : ℕ) → a < 2 → b < 2 → differ a b ≤ 1
differ-le zero b h g = omega arith
differ-le (suc zero) zero h g = omega arith
differ-le (suc zero) (suc zero) h g = omega arith
differ-le (suc zero) (suc (suc b)) h g = absurd (omega arith)
differ-le (suc (suc a)) b h g = absurd (omega arith)

pub bit_xor-lt : (k a b : ℕ) → a < 2 ^ k → b < 2 ^ k → bit_xor a b < 2 ^ k
bit_xor-lt zero zero zero h g = omega (arith, zero-bit_xor 0)
bit_xor-lt zero (suc a) b h g = absurd (omega arith)
bit_xor-lt zero zero (suc b) h g = absurd (omega arith)
bit_xor-lt (suc k) a b h g = omega (
  arith,
  bit_xor_step a b,
  pow-suc 2 k,
  differ-le (a % 2) (b % 2) (omega arith) (omega arith),
  bit_xor-lt k (a / 2) (b / 2) (omega (arith, pow-suc 2 k)) (omega (arith, pow-suc 2 k)),
)

bit_or_comm_below : (n a b : ℕ) → a ≤ n → bit_or a b ≡ bit_or b a
bit_or_comm_below n zero b h = omega (arith, zero-bit_or b, bit_or-zero b)
bit_or_comm_below zero (suc a) b h = absurd (omega arith)
bit_or_comm_below (suc n) (suc a) b h = omega (
  arith,
  bit_or_step (suc a) b,
  bit_or_step b (suc a),
  bit_or_comm_below n (suc a / 2) (b / 2) (omega arith),
)

pub bit_or_comm : (a b : ℕ) → bit_or a b ≡ bit_or b a
bit_or_comm a b = bit_or_comm_below a a b (omega arith)
