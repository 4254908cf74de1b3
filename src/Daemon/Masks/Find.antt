-- ===== src/Daemon/Masks/Find.antt =====
-- `isPowerOfTwo` decides what its name says, and `findPosition` finds the exponent.
use huc.Base.{
  ℕ, zero, suc, ◌+◌, ◌*◌, ◌^◌, ◌≤◌, ◌<◌, ◌≡◌, ◌↔◌, ◌⊎◌, inl, inr, ap, ◌∙◌, true, false, some, arith,
  bit, bit-pow_self, bit-pow_below, Bool-cases, bit_and-pow, pow-bit_and-pred, pow_of_bit_and-pred,
  u64, dec_lt,
}
use native.Mathlib.Nat.{pow-suc, one-le-pow, pow-le-pow_right}
use huc.Daemon.Masks.{is_power_of_two, position_from, find_position, Position, minus_one, at}

-- The test passes exactly at the powers of two.
is_power_of_two_iff : (n : ℕ) → (is_power_of_two n ≡ true) ↔ ((k : ℕ) × (n ≡ 2 ^ k))
unfolding is_power_of_two
is_power_of_two_iff n = (
  λ e. pow_of_bit_and-pred n (ground arith) (ground arith),
  λ p. let (k, e) = p in ground (arith, pow-bit_and-pred k, one-le-pow k 2 (omega arith)),
)

-- A shift of a bit below the highest one loses nothing.
shifted : (j : ℕ) → j < 63 → u64 (2 ^ j * 2) ≡ 2 ^ suc j
shifted j h =
    omega
      (arith, pow-suc 2 j, pow-le-pow_right {n = 2} (omega arith) {i = j} {j = 62} (omega arith))

position_from_pow :
    (fuel j k : ℕ)
    → j ≤ k
    → k < 64
    → k < j + fuel
    → position_from fuel (2 ^ j) j (2 ^ k) ≡ some (at k)
unfolding position_from
position_from_pow zero j k le lt enough = absurd (omega arith)
position_from_pow (suc fuel) j k le lt enough = elim (dec_lt j k) [
  | yes below ↦ ground (
    arith,
    bit_and-pow j (2 ^ k),
    bit-pow_below k j below,
    shifted j (omega arith),
    suc_position fuel j k (position_from_pow fuel (suc j) k (omega arith) lt (omega arith)),
  )
  | no here ↦
      let same : j ≡ k = omega arith in
      ground (
        arith,
        bit_and-pow j (2 ^ k),
        ap (bit (2 ^ k)) same ∙ bit-pow_self k,
        one-le-pow j 2 (omega arith),
      )
]
  where
    suc_position :
        (f j k : ℕ)
        → position_from f (2 ^ suc j) (suc j) (2 ^ k) ≡ some (at k)
        → position_from f (2 ^ suc j) (j + 1) (2 ^ k) ≡ some (at k)
    suc_position f j k e = ap (λ p. position_from f (2 ^ suc j) p (2 ^ k)) (omega arith) ∙ e

exponent_lt : (k : ℕ) → 2 ^ k < 2 ^ 64 → k < 64
exponent_lt k h = elim (dec_lt k 64) [
  | yes lt ↦ lt
  | no ge ↦
      absurd (omega (arith, pow-le-pow_right {n = 2} (omega arith) {i = 64} {j = k} (omega arith)))
]

found :
    (n : ℕ) {p : Position}
    → is_power_of_two n ≡ true
    → position_from 64 1 0 n ≡ some p
    → find_position n ≡ some p
unfolding find_position
found n single e = ground arith

not_found : (n : ℕ) → is_power_of_two n ≡ false → find_position n ≡ some minus_one
unfolding find_position
not_found n several = ground arith

-- `findPosition` ends for every 64-bit number: with the exponent at a power of two, with -1 at any
-- other number.
pub find_position_lem :
    (n : ℕ)
    → n < 2 ^ 64
    → ((k : ℕ) × (k < 64) × (n ≡ 2 ^ k) × (find_position n ≡ some (at k)))
      ⊎ ((¬ ((k : ℕ) × (n ≡ 2 ^ k))) × (find_position n ≡ some minus_one))
find_position_lem n lt = elim (Bool-cases (is_power_of_two n)) [
  | inl single ↦
      let (k, e) = (is_power_of_two_iff n).0 single in
      let small : k < 64 = exponent_lt k (omega arith) in
      inl (
        k,
        small,
        e,
        found n single (
            ap (position_from 64 1 0) e
            ∙ position_from_pow 64 0 k (omega arith) small (omega arith)),
      )
  | inr several ↦
      inr (λ p. absurd (ground (arith, (is_power_of_two_iff n).1 p)), not_found n several)
]
