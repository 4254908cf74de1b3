-- ===== src/Base/Bits.antt =====
-- Binary digits of a number, and what the native operations do to them.
use Prim.Native.Nat.{ℕ, zero, suc, ◌+◌, ◌-◌, ◌*◌, ◌/◌, ◌%◌, ◌^◌, ◌≤◌, ◌<◌, min, max}
use Prim.Native.Nat.{bit_and, bit_or, digits, bit_and-bitwise, bit_or-bitwise}
use mathlib.Core.Path.{◌≡◌, refl, ap}
use native.Mathlib.Nat.{pow-suc, one-le-pow}
use native.Mathlib.Omega.{arith}

-- Digit `i`, the value of `(a >> i) & 1`.
abbrev pub bit : ℕ → ℕ → ℕ
bit a zero = a % 2
bit a (suc i) = bit (a / 2) i

module _ (z : ℕ → ℕ) (f : ℕ → ℕ → ℕ) where
  -- Any count of digits that reaches the first number gives the same result.
  digits-eq : (n m a b : ℕ) → a ≤ n → a ≤ m → digits z f n a b ≡ digits z f m a b
  digits-eq zero zero a b p q = refl
  digits-eq zero (suc m) zero b p q = refl
  digits-eq zero (suc m) (suc a) b p q = absurd (omega arith)
  digits-eq (suc n) zero zero b p q = refl
  digits-eq (suc n) zero (suc a) b p q = absurd (omega arith)
  digits-eq (suc n) (suc m) zero b p q = refl
  digits-eq (suc n) (suc m) (suc a) b p q =
      ap (λ t. t * 2 + f (suc a % 2) (b % 2))
        (digits-eq n m (suc a / 2) (b / 2) (omega arith) (omega arith))

pub bit_and_low : (a b : ℕ) → bit_and a b ≡ bit_and (a / 2) (b / 2) * 2 + min (a % 2) (b % 2)
bit_and_low zero b = omega (arith, bit_and-bitwise 0 b, bit_and-bitwise 0 (b / 2))
bit_and_low (suc a) b = omega (
  arith,
  bit_and-bitwise (suc a) b,
  bit_and-bitwise (suc a / 2) (b / 2),
  digits-eq (λ y. 0) min a (suc a / 2) (suc a / 2) (b / 2) (omega arith) (omega arith),
)

pub bit_or_low : (a b : ℕ) → bit_or a b ≡ bit_or (a / 2) (b / 2) * 2 + max (a % 2) (b % 2)
bit_or_low zero b = omega (arith, bit_or-bitwise 0 b, bit_or-bitwise 0 (b / 2))
bit_or_low (suc a) b = omega (
  arith,
  bit_or-bitwise (suc a) b,
  bit_or-bitwise (suc a / 2) (b / 2),
  digits-eq (λ y. y) max a (suc a / 2) (suc a / 2) (b / 2) (omega arith) (omega arith),
)

pub bit-le-one : (a i : ℕ) → bit a i ≤ 1
bit-le-one a zero = omega arith
bit-le-one a (suc i) = bit-le-one (a / 2) i

pub zero-bit : (i : ℕ) → bit 0 i ≡ 0
zero-bit zero = refl
zero-bit (suc i) = zero-bit i

half_congr : (a b i : ℕ) → a ≡ b → bit a i ≡ bit b i
half_congr a b i e = ap (λ t. bit t i) e

pub bit-bit_and : (a b i : ℕ) → bit (bit_and a b) i ≡ min (bit a i) (bit b i)
bit-bit_and a b zero = omega (arith, bit_and_low a b)
bit-bit_and a b (suc i) = omega (
  arith,
  half_congr (bit_and a b / 2) (bit_and (a / 2) (b / 2)) i (omega (arith, bit_and_low a b)),
  bit-bit_and (a / 2) (b / 2) i,
)

pub bit-bit_or : (a b i : ℕ) → bit (bit_or a b) i ≡ max (bit a i) (bit b i)
bit-bit_or a b zero = omega (arith, bit_or_low a b)
bit-bit_or a b (suc i) = omega (
  arith,
  half_congr (bit_or a b / 2) (bit_or (a / 2) (b / 2)) i (omega (arith, bit_or_low a b)),
  bit-bit_or (a / 2) (b / 2) i,
)

-- A number is given by its digits.
bit_ext_fuel : (n a b : ℕ) → a ≤ n → b ≤ n → ((i : ℕ) → bit a i ≡ bit b i) → a ≡ b
bit_ext_fuel zero a b p q h = omega arith
bit_ext_fuel (suc n) a b p q h =
    omega (arith, h 0, bit_ext_fuel n (a / 2) (b / 2) (omega arith) (omega arith) (λ i. h (suc i)))

pub bit_ext : (a b : ℕ) → ((i : ℕ) → bit a i ≡ bit b i) → a ≡ b
bit_ext a b h = bit_ext_fuel (a + b) a b (omega arith) (omega arith) h

pub bit_or-zero : (a : ℕ) → bit_or 0 a ≡ a
bit_or-zero a = bit_ext _ _ (λ i. omega (arith, bit-bit_or 0 a i, zero-bit i))

-- Above its width a number has no digits.
pub bit_of_lt : (k a i : ℕ) → a < 2 ^ k → k ≤ i → bit a i ≡ 0
bit_of_lt zero a i h le = omega (arith, half_congr a 0 i (omega arith), zero-bit i)
bit_of_lt (suc k) a zero h le = absurd (omega arith)
bit_of_lt (suc k) a (suc i) h le = bit_of_lt k (a / 2) i (omega (arith, pow-suc 2 k)) (omega arith)

-- With no digit from `k` on, a number fits `k` bits.
pub lt_of_bit : (k a : ℕ) → ((i : ℕ) → k ≤ i → bit a i ≡ 0) → a < 2 ^ k
lt_of_bit zero a h = omega (arith, bit_ext a 0 (λ i. omega (arith, h i (omega arith), zero-bit i)))
lt_of_bit (suc k) a h =
    omega (arith, pow-suc 2 k, lt_of_bit k (a / 2) (λ i le. h (suc i) (omega arith)))

-- `~a` at width `k` flips each digit below `k`.
pub bit_complement : (k a i : ℕ) → a < 2 ^ k → i < k → bit (2 ^ k - 1 - a) i + bit a i ≡ 1
bit_complement zero a i h lt = absurd (omega arith)
bit_complement (suc k) a zero h lt = omega (arith, pow-suc 2 k, one-le-pow k 2 (omega arith))
bit_complement (suc k) a (suc i) h lt = omega (
  arith,
  half_congr ((2 ^ suc k - 1 - a) / 2) (2 ^ k - 1 - a / 2) i
      (omega (arith, pow-suc 2 k, one-le-pow k 2 (omega arith))),
  bit_complement k (a / 2) i (omega (arith, pow-suc 2 k)) (omega arith),
)
