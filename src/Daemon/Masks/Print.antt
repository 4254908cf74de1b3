-- ===== src/Daemon/Masks/Print.antt =====
-- What the mask printers show determines the mask.
use huc.Base.{
  ℕ, zero, suc, ◌+◌, ◌*◌, ◌^◌, ◌≤◌, ◌<◌, ◌≡◌, refl, ap, ◌∙◌, false, not, List, [], ◌∷◌, arith, bit,
  bit_and, bit_and-pow, bit_and_comm, u64, length, get_or, ◌==◌, ◌/◌, bit-le-one,
}
use native.Mathlib.Nat.{pow-suc, one-le-pow, pow-le-pow_right}
use huc.Hucdev.Cpus.{cpu_isset}
use huc.Daemon.Masks.{cpus_from, print_cpu_set_mask, digits_from, print_binary_mask}

-- The mask of a list of CPUs.
abbrev pub mask_of : List ℕ → ℕ
mask_of [] = 0
mask_of (i ∷ cpus) = 2 ^ i + mask_of cpus

-- The part of a mask from bit `i` on, `k` bits of it.
bits_value : ℕ → ℕ → ℕ → ℕ
bits_value set i zero = 0
bits_value set i (suc k) = bit set i * 2 ^ i + bits_value set (i + 1) k

mask_of-cpus_from : (set i k : ℕ) → mask_of (cpus_from set i k) ≡ bits_value set i k
unfolding cpus_from bits_value
mask_of-cpus_from set i zero = refl
mask_of-cpus_from set i (suc k) = ground (arith, mask_of-cpus_from set (i + 1) k, bit-le-one set i)

bits_value-half : (set i k : ℕ) → bits_value set (suc i) k ≡ 2 * bits_value (set / 2) i k
unfolding bits_value
bits_value-half set i zero = refl
bits_value-half set i (suc k) = omega (
  arith,
  ap (λ t. bits_value set t k) {x = suc i + 1} {y = suc (i + 1)} (omega arith),
  bits_value-half set (i + 1) k,
  ap (λ t. bit (set / 2) i * t) (pow-suc 2 i),
)

bits_value-eq : (k set : ℕ) → set < 2 ^ k → bits_value set 0 k ≡ set
unfolding bits_value
bits_value-eq zero set h = omega arith
bits_value-eq (suc k) set h = omega (
  arith,
  ap (λ t. bits_value set t k) {x = 0 + 1} {y = suc 0} (omega arith),
  bits_value-half set 0 k,
  bits_value-eq k (set / 2) (omega (arith, pow-suc 2 k)),
)

-- The CPUs that `print_cpu_set_mask` lists are exactly those of a 64-bit mask: together they make it
-- up again.
mask_of-print_cpu_set_mask : (set : ℕ) → set < 2 ^ 64 → mask_of (print_cpu_set_mask set) ≡ set
unfolding print_cpu_set_mask
mask_of-print_cpu_set_mask set h = mask_of-cpus_from set 0 64 ∙ bits_value-eq 64 set h

power_fits : (i : ℕ) → i < 64 → u64 (2 ^ i) ≡ 2 ^ i
power_fits i h =
    omega (arith, pow-le-pow_right {n = 2} (omega arith) {i = i} {j = 63} (omega arith))

digit_lem : (value i : ℕ) → i < 64 → not (bit_and value (u64 (2 ^ i)) == 0) ≡ cpu_isset i value
digit_lem value i h = ground (
  arith,
  power_fits i h,
  bit_and_comm value (2 ^ i),
  bit_and-pow i value,
  bit-le-one value i,
  one-le-pow i 2 (omega arith),
)

digits_from-bits :
    (value i k j : ℕ)
    → i + k ≤ 64
    → j < k
    → get_or (digits_from value i k) j false ≡ cpu_isset (i + j) value
unfolding digits_from
digits_from-bits value i zero j le lt = absurd (omega arith)
digits_from-bits value i (suc k) zero le lt =
    digit_lem value i (omega arith) ∙ ap (λ x. cpu_isset x value) {x = i} {y = i + 0} (omega arith)
digits_from-bits value i (suc k) (suc j) le lt =
    digits_from-bits value (i + 1) k j (omega arith) (omega arith)
    ∙ ap (λ x. cpu_isset x value) {x = i + 1 + j} {y = i + suc j} (omega arith)

length-digits_from : (value i k : ℕ) → length (digits_from value i k) ≡ k
unfolding digits_from
length-digits_from value i zero = refl
length-digits_from value i (suc k) = ap suc (length-digits_from value (i + 1) k)

-- For up to eight bytes `print_binary_mask` prints one digit for each bit, lowest first.
print_binary_mask-bits :
    (value len j : ℕ)
    → len ≤ 8
    → j < len * 8
    → (length (print_binary_mask value len) ≡ len * 8)
      × (get_or (print_binary_mask value len) j false ≡ cpu_isset j value)
unfolding print_binary_mask
print_binary_mask-bits value len j le lt = (
  ground (arith, length-digits_from value 0 (len * 8)),
  ground (
    arith,
    digits_from-bits value 0 (len * 8) j (omega arith) lt,
    ap (λ x. cpu_isset x value) {x = 0 + j} {y = j} (omega arith),
  ),
)
