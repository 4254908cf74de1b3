-- ===== src/Hucdev/Irq.antt =====
-- The interrupt line follows the status register.
use huc.Base.{
  ℕ, ◌+◌, ◌^◌, ◌<◌, ◌≡◌, ◌≢◌, ◌↔◌, ap, true, arith, bit, bit_and, bit_or, min, bit-bit_and,
  bit-bit_or, bit_ext, bit_of_lt, lt_of_bit, bit_complement, bit-le-one, zero-bit, dec_lt,
}
use huc.Hucdev.{HucState, raise_irq, lower_irq, complement32}

-- The status fits 32 bits, and the line is high exactly while a status bit is set.
pub record IrqOk (s : HucState) : Type 0 where
  pub status_fits : s.irq_status < 2 ^ 32
  pub line_follows : (s.irq_line ≡ true) ↔ (s.irq_status ≢ 0)

same_bit : (i a b : ℕ) → a ≡ b → bit a i ≡ bit b i
same_bit i a b e = ap (λ t. bit t i) e

or_fits : (a b : ℕ) → a < 2 ^ 32 → b < 2 ^ 32 → bit_or a b < 2 ^ 32
or_fits a b p q =
    lt_of_bit 32 (bit_or a b)
      (λ i le. omega (arith, bit-bit_or a b i, bit_of_lt 32 a i p le, bit_of_lt 32 b i q le))

or_eq_zero : (a b : ℕ) → bit_or a b ≡ 0 → (a ≡ 0) × (b ≡ 0)
or_eq_zero a b e = (bit_ext a 0 (λ i. (digits i).0), bit_ext b 0 (λ i. (digits i).1))
  where
    digits : (i : ℕ) → (bit a i ≡ bit 0 i) × (bit b i ≡ bit 0 i)
    digits i = omega (arith, ap (λ t. bit t i) e, bit-bit_or a b i, zero-bit i)

and_fits : (a b : ℕ) → a < 2 ^ 32 → bit_and a b < 2 ^ 32
and_fits a b p =
    lt_of_bit 32 (bit_and a b) (λ i le. omega (arith, bit-bit_and a b i, bit_of_lt 32 a i p le))

zero_and : (a b : ℕ) → a ≡ 0 → bit_and a b ≡ 0
zero_and a b e =
    bit_ext _ 0 (λ i. omega (arith, ap (λ t. bit t i) e, bit-bit_and a b i, zero-bit i))

-- Raising keeps the status within 32 bits and the line equal to "some bit is set".
pub raise_irq-IrqOk : {s : HucState} (v : ℕ) → v < 2 ^ 32 → IrqOk s → IrqOk (raise_irq s v)
unfolding raise_irq
raise_irq-IrqOk {s} v h ok = ground (
  arith,
  or_fits s.irq_status v ok.status_fits h,
  or_eq_zero s.irq_status v,
  ok.line_follows.0,
  ok.line_follows.1,
)

-- Lowering keeps the same.
pub lower_irq-IrqOk : {s : HucState} (v : ℕ) → IrqOk s → IrqOk (lower_irq s v)
unfolding lower_irq
lower_irq-IrqOk {s} v ok = ground (
  arith,
  and_fits s.irq_status (complement32 v) ok.status_fits,
  zero_and s.irq_status (complement32 v),
  ok.line_follows.0,
  ok.line_follows.1,
)

-- A lower with the bits that are set clears them all.
pub and-complement : (a : ℕ) → a < 2 ^ 32 → bit_and a (complement32 a) ≡ 0
and-complement a h = bit_ext _ 0 digits
  where
    digits : (i : ℕ) → bit (bit_and a (complement32 a)) i ≡ bit 0 i
    digits i = elim (dec_lt i 32) [
      | yes lt ↦
          omega (arith, bit-bit_and a (complement32 a) i, bit_complement 32 a i h lt, zero-bit i)
      | no ge ↦
          omega
            (arith, bit-bit_and a (complement32 a) i, bit_of_lt 32 a i h (omega arith), zero-bit i)
    ]

pub irq_status-raise_irq :
    (s : HucState) (v : ℕ) → (raise_irq s v).irq_status ≡ bit_or s.irq_status v
unfolding raise_irq
irq_status-raise_irq s v = ground arith

pub irq_status-lower_irq :
    (s : HucState) (v : ℕ) → (lower_irq s v).irq_status ≡ bit_and s.irq_status (complement32 v)
unfolding lower_irq
irq_status-lower_irq s v = ground arith

-- When the device raises `v` after a handler has read the status `r` and before it writes `r` back
-- to acknowledge it, what stays pending are exactly the bits of `v` that `r` did not have: a bit
-- that was already set is acknowledged with the old one.
pub ack-raise :
    (s : HucState) (v i : ℕ)
    → s.irq_status < 2 ^ 32
    → v < 2 ^ 32
    → bit (lower_irq (raise_irq s v) s.irq_status).irq_status i + min (bit v i) (bit s.irq_status i)
      ≡ bit v i
ack-raise s v i h k =
    rw (irq_status-lower_irq, irq_status-raise_irq, bit-bit_and, bit-bit_or)
      (elim (dec_lt i 32) [
        | yes lt ↦ omega (
          arith,
          bit_complement 32 s.irq_status i h lt,
          bit-le-one v i,
          bit-le-one s.irq_status i,
        )
        | no ge ↦
            omega
              (arith, bit_of_lt 32 s.irq_status i h (omega arith), bit_of_lt 32 v i k (omega arith))
      ])

pub buf-raise_irq : (s : HucState) (v : ℕ) → (raise_irq s v).buf ≡ s.buf
unfolding raise_irq
buf-raise_irq s v = ground arith

-- Raising any bit pulls the line.
pub irq_line-raise_irq : (s : HucState) (i v : ℕ) → bit v i ≡ 1 → (raise_irq s v).irq_line ≡ true
unfolding raise_irq
irq_line-raise_irq s i v e = ground (
  arith,
  bit-bit_or s.irq_status v i,
  bit-le-one s.irq_status i,
  zero-bit i,
  same_bit i (bit_or s.irq_status v) 0,
)

pub buf-lower_irq : (s : HucState) (v : ℕ) → (lower_irq s v).buf ≡ s.buf
unfolding lower_irq
buf-lower_irq s v = ground arith
