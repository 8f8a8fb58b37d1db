-- ===== src/Common/Bits.antt =====
-- Laws of `bit_and` and `bit_or` at variables, for masks of ones, shifted masks and disjoint fields.
-- `shl x k` is `x << k`.
use Prim.Native.Nat.{
  ℕ, zero, suc, ◌+◌, ◌*◌, ◌/◌, ◌%◌, ◌≤◌, ◌<◌, min, max, bit_and, bit_or, digits, bitwise,
  bit_and-bitwise, bit_or-bitwise,
}
use mathlib.Core.Path.{◌≡◌, refl, ap, ◌∙◌}
use mathlib.Core.Logic.{inl, inr}
use bimble_os.Common.Tests.{leb, Bool-cases}
use native.Mathlib.Omega.{arith}

-- `digits` at fuel that is enough. `keep` says what is left of the second word when the first ends.
module _ (keep : ℕ → ℕ) (op : ℕ → ℕ → ℕ) where
  one_more : (n a b : ℕ) → a ≤ n → digits keep op (suc n) a b ≡ digits keep op n a b
  one_more zero zero b h = refl
  one_more (suc n) zero b h = refl
  one_more zero (suc a) b h = absurd (omega arith)
  one_more (suc n) (suc a) b h =
      ap (λ x. x * 2 + op (suc a % 2) (b % 2)) (one_more n (suc a / 2) (b / 2) (omega arith))

  settled : (n a b : ℕ) → a ≤ n → digits keep op n a b ≡ digits keep op a a b
  settled zero a b h = let e : a ≡ 0 = omega arith in rw e refl
  settled (suc n) a b h = elim (Bool-cases (leb a n)) [
    | inl below ↦ let le : a ≤ n = ground arith in one_more n a b le ∙ settled n a b le
    | inr same ↦ let e : a ≡ suc n = ground arith in rw e refl
  ]

  -- The lowest digit of the result, where `keep` agrees with it.
  lowest_digit :
      ((b : ℕ) → keep b ≡ keep (b / 2) * 2 + op 0 (b % 2))
      → (a b : ℕ) → bitwise keep op a b ≡ bitwise keep op (a / 2) (b / 2) * 2 + op (a % 2) (b % 2)
  lowest_digit law zero b = law b
  lowest_digit law (suc a) b =
      ap (λ x. x * 2 + op (suc a % 2) (b % 2)) (settled a (suc a / 2) (b / 2) (omega arith))

pub bit_and_step : (a b : ℕ) → bit_and a b ≡ bit_and (a / 2) (b / 2) * 2 + min (a % 2) (b % 2)
bit_and_step a b = omega (
  arith,
  lowest_digit (λ x. 0) min (λ x. omega arith) a b,
  bit_and-bitwise a b,
  bit_and-bitwise (a / 2) (b / 2),
)

pub bit_or_step : (a b : ℕ) → bit_or a b ≡ bit_or (a / 2) (b / 2) * 2 + max (a % 2) (b % 2)
bit_or_step a b = omega (
  arith,
  lowest_digit (λ x. x) max (λ x. omega arith) a b,
  bit_or-bitwise a b,
  bit_or-bitwise (a / 2) (b / 2),
)

-- `x << k`, by doubling.
abbrev pub shl : ℕ → ℕ → ℕ
shl x zero = x
shl x (suc k) = 2 * shl x k

-- k ones.
abbrev pub ones : ℕ → ℕ
ones zero = 0
ones (suc k) = 2 * ones k + 1

digits-min-zero : (n a : ℕ) → digits (λ x. 0) min n a 0 ≡ 0
digits-min-zero zero zero = refl
digits-min-zero (suc n) zero = refl
digits-min-zero zero (suc a) = refl
digits-min-zero (suc n) (suc a) = omega (arith, digits-min-zero n (suc a / 2))

pub bit_and-zero : (a : ℕ) → bit_and a 0 ≡ 0
bit_and-zero a = bit_and-bitwise a 0 ∙ digits-min-zero a a

digits-max-zero : (n a : ℕ) → a ≤ n → digits (λ x. x) max n a 0 ≡ a
digits-max-zero zero zero h = refl
digits-max-zero (suc n) zero h = refl
digits-max-zero zero (suc a) h = absurd (omega arith)
digits-max-zero (suc n) (suc a) h = omega (arith, digits-max-zero n (suc a / 2) (omega arith))

pub bit_or-zero : (a : ℕ) → bit_or a 0 ≡ a
bit_or-zero a = bit_or-bitwise a 0 ∙ digits-max-zero a a (omega arith)

bit_and_odd : (x m : ℕ) → bit_and x (2 * m + 1) ≡ bit_and (x / 2) m * 2 + x % 2
bit_and_odd x m =
    let half : (2 * m + 1) / 2 ≡ m = omega arith in
    let step = bit_and_step x (2 * m + 1) in
    let step' : bit_and x (2 * m + 1) ≡ bit_and (x / 2) m * 2 + min (x % 2) ((2 * m + 1) % 2) =
      rw half at step in
    omega arith

bit_and_even : (x m : ℕ) → bit_and x (2 * m) ≡ bit_and (x / 2) m * 2
bit_and_even x m =
    let half : 2 * m / 2 ≡ m = omega arith in
    let step = bit_and_step x (2 * m) in
    let step' : bit_and x (2 * m) ≡ bit_and (x / 2) m * 2 + min (x % 2) (2 * m % 2) =
      rw half at step in
    omega arith

-- A mask of k ones takes the k low digits.
pub bit_and-ones : (k x q r : ℕ) → x ≡ shl q k + r → r < shl 1 k → bit_and x (ones k) ≡ r
bit_and-ones zero x q r e h = omega (arith, bit_and-zero x)
bit_and-ones (suc k) x q r e h =
    omega
      (arith, bit_and_odd x (ones k), bit_and-ones k (x / 2) q (r / 2) (omega arith) (omega arith))

shl_zero : (k : ℕ) → shl 0 k ≡ 0
shl_zero zero = refl
shl_zero (suc k) = omega (arith, shl_zero k)

-- A mask of j ones, k places up, clears the k low digits of a word of j + k digits.
pub bit_and-shl-ones :
    (k j x q r : ℕ)
    → x ≡ shl q k + r
    → r < shl 1 k
    → q < shl 1 j
    → bit_and x (shl (ones j) k) ≡ shl q k
bit_and-shl-ones zero j x q r e h hq =
    omega (arith, bit_and-ones j x 0 q (omega (arith, shl_zero j)) hq)
bit_and-shl-ones (suc k) j x q r e h hq = omega (
  arith,
  bit_and_even x (shl (ones j) k),
  bit_and-shl-ones k j (x / 2) q (r / 2) (omega arith) (omega arith) hq,
)

-- Fields that share no digit are added.
pub bit_or-shl : (k x q r : ℕ) → x ≡ shl q k → r < shl 1 k → bit_or x r ≡ x + r
bit_or-shl zero x q r e h = let z : r ≡ 0 = omega arith in rw (z, bit_or-zero x) (omega arith)
bit_or-shl (suc k) x q r e h =
    omega (arith, bit_or_step x r, bit_or-shl k (x / 2) q (r / 2) (omega arith) (omega arith))

-- The low digits of a word and another word of as many digits.
pub bit_or-low :
    (k x q r s : ℕ)
    → x ≡ shl q k + r
    → r < shl 1 k
    → s < shl 1 k
    → (bit_or x s ≡ shl q k + bit_or r s) × (bit_or r s < shl 1 k)
bit_or-low zero x q r s e hr hs =
    let zr : r ≡ 0 = omega arith in
    let zs : s ≡ 0 = omega arith in
    rw (zr, zs, bit_or-zero x, bit_or-zero 0) (omega arith, omega arith)
bit_or-low (suc k) x q r s e hr hs =
    let even : x % 2 ≡ r % 2 = omega arith in
    let ih = bit_or-low k (x / 2) q (r / 2) (s / 2) (omega arith) (omega arith) (omega arith) in
    let step : bit_or x s ≡ bit_or (x / 2) (s / 2) * 2 + max (r % 2) (s % 2) =
      bit_or_step x s ∙ ap (λ b. bit_or (x / 2) (s / 2) * 2 + max b (s % 2)) even in
    (omega (arith, step, bit_or_step r s, ih.0), omega (arith, bit_or_step r s, ih.1))
