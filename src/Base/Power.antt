-- ===== src/Base/Power.antt =====
-- Masks, single bits and powers of two, as C code tests and builds them.
use Prim.Native.Nat.{ℕ, zero, suc, ◌+◌, ◌-◌, ◌*◌, ◌/◌, ◌%◌, ◌^◌, ◌≤◌, ◌<◌, bit_and}
use mathlib.Core.Path.{◌≡◌, refl, ap, ◌∙◌, sym}
use native.Mathlib.Decide.{ℕ_discrete, dec_lt}
use native.Mathlib.Nat.{
  mul_assoc, mul-mod_right, mod-mod_of_dvd, dvd-mul_right, pow-suc, one-le-pow, mod-lt,
  mod-eq_of_lt, div-add-mod, mul-add-mod_self_left,
}
use native.Mathlib.Omega.{arith}
use huc.Base.Tests.{ltb, if◌then◌else◌}
use huc.Base.Bits.{bit, bit_and_low, bit-bit_and, bit_ext, zero-bit, bit_of_lt, lt_of_bit}

pub bit_and_self : (a : ℕ) → bit_and a a ≡ a
bit_and_self a = bit_ext _ a (λ i. omega (arith, bit-bit_and a a i))

pub bit_and-zero : (a : ℕ) → bit_and a 0 ≡ 0
bit_and-zero a = bit_ext _ 0 (λ i. omega (arith, bit-bit_and a 0 i, zero-bit i))

pub bit_and_comm : (a b : ℕ) → bit_and a b ≡ bit_and b a
bit_and_comm a b = bit_ext _ _ (λ i. omega (arith, bit-bit_and a b i, bit-bit_and b a i))

-- The remainder by a power of two, one digit at a time.
mod-pow-suc : (k a : ℕ) → a % 2 ^ suc k ≡ a / 2 % 2 ^ k * 2 + a % 2
mod-pow-suc k a =
    ap (λ t. t % 2 ^ suc k) split
    ∙ mul-add-mod_self_left (2 ^ suc k) (a / 2 / 2 ^ k) _
    ∙ mod-eq_of_lt small
  where
    small : a / 2 % 2 ^ k * 2 + a % 2 < 2 ^ suc k
    small = omega (arith, pow-suc 2 k, mod-lt (a / 2) {m = 2 ^ k} (one-le-pow k 2 (omega arith)))

    split : a ≡ 2 ^ suc k * (a / 2 / 2 ^ k) + (a / 2 % 2 ^ k * 2 + a % 2)
    split = omega (arith, ap (λ t. t * (a / 2 / 2 ^ k)) (pow-suc 2 k), div-add-mod (a / 2) (2 ^ k))

-- `a & (2^k - 1)` is the remainder by `2^k`.
pub bit_and-low_mask : (k a : ℕ) → bit_and a (2 ^ k - 1) ≡ a % 2 ^ k
bit_and-low_mask zero a = bit_and-zero a ∙ omega arith
bit_and-low_mask (suc k) a = omega (
  arith,
  bit_and_low a (2 ^ suc k - 1),
  pow-suc 2 k,
  one-le-pow k 2 (omega arith),
  ap (bit_and (a / 2)) {x = (2 ^ suc k - 1) / 2} {y = 2 ^ k - 1}
      (omega (arith, pow-suc 2 k, one-le-pow k 2 (omega arith))),
  bit_and-low_mask k (a / 2),
  mod-pow-suc k a,
)

-- `(1 << k) & a` is digit `k` in its place.
pub bit_and-pow : (k a : ℕ) → bit_and (2 ^ k) a ≡ bit a k * 2 ^ k
bit_and-pow zero a = omega (arith, bit_and_low 1 a, bit_and_comm 0 (a / 2), bit_and-zero (a / 2))
bit_and-pow (suc k) a = omega (
  arith,
  bit_and_low (2 ^ suc k) a,
  pow-suc 2 k,
  ap (λ t. bit_and t (a / 2)) {x = 2 ^ suc k / 2} {y = 2 ^ k} (omega (arith, pow-suc 2 k)),
  bit_and-pow k (a / 2),
  ap (λ t. bit (a / 2) k * t) (pow-suc 2 k),
)

-- `n & (n - 1)` vanishes at a power of two.
pub pow-bit_and-pred : (k : ℕ) → bit_and (2 ^ k) (2 ^ k - 1) ≡ 0
pow-bit_and-pred k = bit_and-low_mask k (2 ^ k) ∙ grind arith

-- And a positive `n` at which it vanishes is one.
pow_of_bit_and-pred_fuel : (f n : ℕ) → n ≤ f → 0 < n → bit_and n (n - 1) ≡ 0 → (k : ℕ) × (n ≡ 2 ^ k)
pow_of_bit_and-pred_fuel zero n le pos e = absurd (omega arith)
pow_of_bit_and-pred_fuel (suc f) n le pos e = elim (ℕ_discrete (n % 2) 0) [
  | yes even ↦
      let half : bit_and (n / 2) (n / 2 - 1) ≡ 0 = omega (
        arith,
        bit_and_low n (n - 1),
        ap (bit_and (n / 2)) {x = (n - 1) / 2} {y = n / 2 - 1} (omega arith),
      ) in
      let (k, p) = pow_of_bit_and-pred_fuel f (n / 2) (omega arith) (omega arith) half in
      (suc k, omega (arith, pow-suc 2 k))
  | no odd ↦ (
    0,
    omega (
      arith,
      bit_and_low n (n - 1),
      ap (bit_and (n / 2)) {x = (n - 1) / 2} {y = n / 2} (omega arith),
      bit_and_self (n / 2),
    ),
  )
]

pub pow_of_bit_and-pred : (n : ℕ) → 0 < n → bit_and n (n - 1) ≡ 0 → (k : ℕ) × (n ≡ 2 ^ k)
pow_of_bit_and-pred n = pow_of_bit_and-pred_fuel n n (omega arith)

half_pow : (k : ℕ) → 2 ^ suc k / 2 ≡ 2 ^ k
half_pow k = omega (arith, pow-suc 2 k)

-- The digits of a power of two.
pub bit-pow_self : (k : ℕ) → bit (2 ^ k) k ≡ 1
bit-pow_self zero = refl
bit-pow_self (suc k) = ap (λ t. bit t k) (half_pow k) ∙ bit-pow_self k

pub bit-pow_below : (k j : ℕ) → j < k → bit (2 ^ k) j ≡ 0
bit-pow_below zero j h = absurd (omega arith)
bit-pow_below (suc k) zero h = omega (arith, pow-suc 2 k)
bit-pow_below (suc k) (suc j) h = ap (λ t. bit t j) (half_pow k) ∙ bit-pow_below k j (omega arith)

pub bit-pow_above : (k j : ℕ) → k < j → bit (2 ^ k) j ≡ 0
bit-pow_above k j h =
    bit_of_lt (suc k) (2 ^ k) j (omega (arith, pow-suc 2 k, one-le-pow k 2 (omega arith))) h

pub pow-add : (p d : ℕ) → 2 ^ (p + d) ≡ 2 ^ p * 2 ^ d
pow-add p zero = ap (λ n. 2 ^ n) {y = p} (omega arith) ∙ omega arith
pow-add p (suc d) =
    ap (λ n. 2 ^ n) {y = suc (p + d)} (omega arith)
    ∙ pow-suc 2 (p + d)
    ∙ ap (λ t. t * 2) (pow-add p d)
    ∙ mul_assoc (2 ^ p) (2 ^ d) 2
    ∙ ap (λ t. 2 ^ p * t) (sym (pow-suc 2 d))

-- A wider wrap-around does not show in a narrower one.
pub mod-mod_pow : (p q a : ℕ) → p ≤ q → a % 2 ^ q % 2 ^ p ≡ a % 2 ^ p
mod-mod_pow p q a le =
    ap (λ t. a % t % 2 ^ p) (ap (λ n. 2 ^ n) {y = p + (q - p)} (omega arith) ∙ pow-add p (q - p))
    ∙ mod-mod_of_dvd (2 ^ p) a (dvd-mul_right (2 ^ p) (2 ^ (q - p)))

-- A single bit in a word of `k` bits.
pub pow-mod_pow : (i k : ℕ) → 2 ^ i % 2 ^ k ≡ (if ltb i k then 2 ^ i else 0)
pow-mod_pow i k = elim (dec_lt i k) [
  | yes below ↦
      mod-eq_of_lt (lt_of_bit k (2 ^ i) (λ j le. bit-pow_above i j (omega arith))) ∙ ground arith
  | no above ↦
      ap (λ t. t % 2 ^ k) (ap (λ n. 2 ^ n) {y = k + (i - k)} (omega arith) ∙ pow-add k (i - k))
      ∙ mul-mod_right (2 ^ k) (2 ^ (i - k))
      ∙ ground arith
]
