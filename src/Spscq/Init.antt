-- ===== src/Spscq/Init.antt =====
-- Sizes and masks: what `blq_init` accepts, and the size that `blq_size` computes.
use huc.Base.{
  ℕ, zero, suc, ◌+◌, ◌-◌, ◌*◌, ◌/◌, ◌%◌, ◌^◌, ◌≤◌, ◌<◌, ◌≡◌, ap, ◌∙◌, none, some, arith, bit_and,
  pow-bit_and-pred, pow_of_bit_and-pred, ◌⊎◌, inl, inr, dec_lt, ℕ_discrete, bit_and_low,
  bit_and-low_mask,
}
use native.Mathlib.Nat.{pow-suc, one-le-pow}
use huc.Spscq.{Blq, init, blq_size, aligned_size}

-- `blq_init` accepts exactly the powers of two from 2 on, sets the length and the mask one below
-- it, and nothing else; on any other length it fails.
pub init_lem :
    (q : Blq) (qlen : ℕ)
    → ((k : ℕ) × (1 ≤ k)
        × (qlen ≡ 2 ^ k)
        × (init q qlen ≡ some (record q { qlen = qlen; qmask = qlen - 1 })))
      ⊎ ((¬ ((k : ℕ) × (1 ≤ k) × (qlen ≡ 2 ^ k))) × (init q qlen ≡ none))
unfolding init
init_lem q qlen = elim (dec_lt qlen 2) [
  | yes short ↦ inr (λ p. let (k, le, e) = p in absurd (omega (arith, two_le k le)), ground arith)
  | no long ↦ elim (ℕ_discrete (bit_and qlen (qlen - 1)) 0) [
    | yes single ↦
        let (k, e) = pow_of_bit_and-pred qlen (omega arith) single in
        inl (k, positive k (omega arith), e, ground arith)
    | no several ↦ inr (λ p. let (k, le, e) = p in several (vanishes k e), ground arith)
  ]
]
  where
    two_le : (k : ℕ) → 1 ≤ k → 2 ≤ 2 ^ k
    two_le zero h = absurd (omega arith)
    two_le (suc k) h = omega (arith, pow-suc 2 k, one-le-pow k 2 (omega arith))

    positive : (k : ℕ) → 2 ≤ 2 ^ k → 1 ≤ k
    positive zero h = absurd (omega arith)
    positive (suc k) h = omega arith

    vanishes : (k : ℕ) → qlen ≡ 2 ^ k → bit_and qlen (qlen - 1) ≡ 0
    vanishes k e = ap (λ n. bit_and n (n - 1)) e ∙ pow-bit_and-pred k

-- An even mask clears the lowest bit.
even_mask : (a m : ℕ) → bit_and a (m * 2) ≡ bit_and (a / 2) m * 2
even_mask a m = omega (
  arith,
  bit_and_low a (m * 2),
  ap (λ x. bit_and (a / 2) x) {x = m * 2 / 2} {y = m} (omega arith),
)

seven_halves : (a : ℕ) → a / 2 / 2 / 2 / 2 / 2 / 2 / 2 ≡ a / 128
seven_halves a =
    ap (λ n. n / 2 / 2 / 2 / 2 / 2) {y = a / 4} (omega arith)
    ∙ ap (λ n. n / 2 / 2 / 2 / 2) {y = a / 8} (omega arith)
    ∙ ap (λ n. n / 2 / 2 / 2) {y = a / 16} (omega arith)
    ∙ ap (λ n. n / 2 / 2) {y = a / 32} (omega arith)
    ∙ ap (λ n. n / 2) {y = a / 64} (omega arith)
    ∙ omega arith

mask_halves :
    (a : ℕ)
    → bit_and a (2 ^ 64 - 128)
      ≡ bit_and (a / 2 / 2 / 2 / 2 / 2 / 2 / 2) (2 ^ 57 - 1) * 2 * 2 * 2 * 2 * 2 * 2 * 2
mask_halves a =
    even_mask a (2 ^ 63 - 64)
    ∙ ap (λ n. n * 2) (even_mask (a / 2) (2 ^ 62 - 32))
    ∙ ap (λ n. n * 2 * 2) (even_mask (a / 2 / 2) (2 ^ 61 - 16))
    ∙ ap (λ n. n * 2 * 2 * 2) (even_mask (a / 2 / 2 / 2) (2 ^ 60 - 8))
    ∙ ap (λ n. n * 2 * 2 * 2 * 2) (even_mask (a / 2 / 2 / 2 / 2) (2 ^ 59 - 4))
    ∙ ap (λ n. n * 2 * 2 * 2 * 2 * 2) (even_mask (a / 2 / 2 / 2 / 2 / 2) (2 ^ 58 - 2))
    ∙ ap (λ n. n * 2 * 2 * 2 * 2 * 2 * 2) (even_mask (a / 2 / 2 / 2 / 2 / 2 / 2) (2 ^ 57 - 1))

-- Rounding down to whole lines.
mask_lines : (a : ℕ) → a < 2 ^ 64 → bit_and a (2 ^ 64 - 128) ≡ a / 128 * 128
mask_lines a h =
    let low : bit_and (a / 128) (2 ^ 57 - 1) ≡ a / 128 =
      bit_and-low_mask 57 (a / 128) ∙ omega arith in
    let top : bit_and (a / 2 / 2 / 2 / 2 / 2 / 2 / 2) (2 ^ 57 - 1) ≡ a / 128 =
      ap (λ n. bit_and n (2 ^ 57 - 1)) (seven_halves a) ∙ low in
    mask_halves a ∙ omega (arith, top)

-- `SPSCQ_ALIGNED_SIZE` rounds up to whole lines of 128 bytes.
pub aligned_size_lem :
    (sz : ℕ)
    → sz < 2 ^ 63
    → (aligned_size sz % 128 ≡ 0) × (sz ≤ aligned_size sz) × (aligned_size sz < sz + 128)
unfolding aligned_size
aligned_size_lem sz h = omega (arith, mask_lines (sz + 127) (omega arith))

-- For a queue of at most 2^31 slots the size that `blq_size` asks for is a whole number of 128-byte
-- lines, holds the structure and all slots, and wastes less than a line.
pub blq_size_lem :
    (qlen : ℕ)
    → qlen ≤ 2 ^ 31
    → (blq_size qlen % 128 ≡ 0)
      × (640 + qlen * 8 ≤ blq_size qlen)
      × (blq_size qlen < 640 + qlen * 8 + 128)
unfolding blq_size
blq_size_lem qlen h = aligned_size_lem (640 + qlen * 8) (omega arith)
