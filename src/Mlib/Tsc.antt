-- ===== src/Mlib/Tsc.antt =====
-- `tsc_init` of guestend/simplified-spscq/mlib.c. What the counter and the clock show is an input; the
-- arithmetic of the processor on floating-point numbers is a parameter.
use huc.Base.{
  ℕ, zero, suc, ◌+◌, ◌-◌, ◌*◌, ◌^◌, ◌≤◌, ◌<◌, ◌≡◌, refl, ap, ◌∙◌, true, false, ltb, u64, arith,
  dec_lt, ℕ_discrete,
}
use mathlib.Core.Path.{subst}

-- What one round of `tsc_init` reads: the counter around both calls of `gettimeofday`, and the times.
pub record Sample : Type 0 where
  pub ta_0 : ℕ
  pub a_sec : ℕ
  pub a_usec : ℕ
  pub ta_1 : ℕ
  pub tb_0 : ℕ
  pub b_sec : ℕ
  pub b_usec : ℕ
  pub tb_1 : ℕ

-- `da + db`
abbrev pub spread : Sample → ℕ
spread s = u64 (u64 (s.ta_1 + 2 ^ 64 - s.ta_0) + u64 (s.tb_1 + 2 ^ 64 - s.tb_0))

-- The microseconds between the two times.
abbrev pub elapsed : Sample → ℕ
elapsed s = u64 (s.b_sec * 1_000_000 + s.b_usec + 2 ^ 64 - (s.a_sec * 1_000_000 + s.a_usec))

-- `tb_0 - ta_1`
abbrev pub ticks : Sample → ℕ
ticks s = u64 (s.tb_0 + 2 ^ 64 - s.ta_1)

-- What `(double)x * 1000000 / (double)y` is as a `uint64_t`.
abbrev pub Quotient : Type 0
Quotient = ℕ → ℕ → ℕ

-- `cy = (double)(tb_0 - ta_1) * 1000000 / (double)cy`
abbrev pub rate : Quotient → Sample → ℕ
rate quotient s = quotient (ticks s) (elapsed s)

module _ (quotient : Quotient) where
  -- The loop of `tsc_init` from round `i` on, `n` rounds.
  unfoldable pub tsc_from : (ℕ → Sample) → ℕ → ℕ → ℕ → ℕ → ℕ
  tsc_from samples zero i dmax cy = cy
  tsc_from samples (suc n) i dmax cy = elim (ltb (spread (samples i)) dmax) [
    | true ↦ tsc_from samples n (i + 1) (spread (samples i)) (rate quotient (samples i))
    | false ↦ tsc_from samples n (i + 1) dmax cy
  ]

  -- `tsc_init()`: what it leaves in `ticks_per_second`.
  unfoldable pub tsc_init : (ℕ → Sample) → ℕ
  tsc_init samples = tsc_from samples 3 0 (2 ^ 64 - 1) 0

-- A counter of `f` ticks per second and a clock that is right to a microsecond: each call of
-- `gettimeofday` gives the time at an instant between its two readings of the counter.
pub record Sound (f : ℕ) (s : Sample) : Type 0 where
  pub read_a : ℕ
  pub read_b : ℕ
  pub a_after : s.ta_0 ≤ read_a
  pub a_before : read_a ≤ s.ta_1
  pub sleeps : s.ta_1 ≤ s.tb_0
  pub b_after : s.tb_0 ≤ read_b
  pub b_before : read_b ≤ s.tb_1
  pub fits : s.tb_1 < 2 ^ 63
  pub moves : 0 < elapsed s
  pub not_slow : f * elapsed s ≤ (read_b - read_a) * 1_000_000 + f
  pub not_fast : (read_b - read_a) * 1_000_000 ≤ f * elapsed s + f

module _ (quotient : Quotient) where
  -- `j` is the best of the rounds below `i`, and the loop holds its values.
  record Best (samples : ℕ → Sample) (i dmax cy j : ℕ) : Type 0 where
    before : j < i
    spread_is : dmax ≡ spread (samples j)
    rate_is : cy ≡ rate quotient (samples j)
    least : (k : ℕ) → k < i → spread (samples j) ≤ spread (samples k)

  onward :
      (samples : ℕ → Sample) (n i dmax j : ℕ) {cy cy' : ℕ}
      → cy ≡ cy'
      → Best samples (i + 1 + n) dmax cy j
      → Best samples (i + suc n) dmax cy' j
  onward samples n i dmax j {cy} e q =
      subst (λ r. Best samples (i + suc n) dmax r j) e
        (subst (λ k. Best samples k dmax cy j) {x = i + 1 + n} {y = i + suc n} (omega arith) q)

  tsc_from-Best :
      (samples : ℕ → Sample) (n i dmax cy j : ℕ)
      → Best samples i dmax cy j
      → (j' dmax' : ℕ) × Best samples (i + n) dmax' (tsc_from quotient samples n i dmax cy) j'
  unfolding tsc_from
  tsc_from-Best samples zero i dmax cy j q =
      (j, dmax, subst (λ k. Best samples k dmax cy j) {x = i} {y = i + 0} (omega arith) q)
  tsc_from-Best samples (suc n) i dmax cy j q = elim (dec_lt (spread (samples i)) dmax) [
    | yes better ↦
        let (j', dmax', q') =
          tsc_from-Best samples n (i + 1) (spread (samples i)) (rate quotient (samples i)) i
            (record {
              before = omega arith;
              spread_is = refl;
              rate_is = refl;
              least = λ k lt. elim (ℕ_discrete k i) [
                | yes e ↦ omega (arith, ap (λ m. spread (samples m)) e)
                | no ne ↦ omega (arith, q.least k (omega arith), q.spread_is)
              ];
            }) in
        let same : tsc_from quotient samples n (i + 1) (spread (samples i))
              (rate quotient (samples i))
            ≡ tsc_from quotient samples (suc n) i dmax cy =
          ground (arith, better) in
        (j', dmax', onward samples n i dmax' j' same q')
    | no worse ↦
        let (j', dmax', q') = tsc_from-Best samples n (i + 1) dmax cy j (record {
          before = omega (arith, q.before);
          spread_is = q.spread_is;
          rate_is = q.rate_is;
          least = λ k lt. elim (ℕ_discrete k i) [
            | yes e ↦ omega (arith, ap (λ m. spread (samples m)) e, q.spread_is)
            | no ne ↦ q.least k (omega arith)
          ];
        }) in
        let same : tsc_from quotient samples n (i + 1) dmax cy
            ≡ tsc_from quotient samples (suc n) i dmax cy =
          ground (arith, worse) in
        (j', dmax', onward samples n i dmax' j' same q')
  ]

-- What the uncertainty of a sound round is, and how far its ticks are from the counter's.
Sound-ticks :
    {f : ℕ} (s : Sample)
    → Sound f s
    → (spread s < 2 ^ 63 + 2 ^ 63 - 1)
      × (ticks s * 1_000_000 ≤ f * elapsed s + f)
      × (f * elapsed s ≤ ticks s * 1_000_000 + f + spread s * 1_000_000)
Sound-ticks {f} s q =
    let between : ticks s ≡ s.tb_0 - s.ta_1 =
      omega (arith, q.a_after, q.a_before, q.sleeps, q.b_after, q.b_before, q.fits) in
    let wide : spread s ≡ s.ta_1 - s.ta_0 + (s.tb_1 - s.tb_0) =
      omega (arith, q.a_after, q.a_before, q.sleeps, q.b_after, q.b_before, q.fits) in
    let within : q.read_b - q.read_a ≤ s.tb_0 - s.ta_1 + spread s =
      omega (arith, wide, q.a_after, q.a_before, q.sleeps, q.b_after, q.b_before) in
    let beyond : s.tb_0 - s.ta_1 ≤ q.read_b - q.read_a =
      omega (arith, q.a_before, q.sleeps, q.b_after) in
    (
      omega (arith, wide, q.a_after, q.a_before, q.sleeps, q.b_after, q.b_before, q.fits),
      omega (arith, between, beyond, q.not_fast),
      omega (arith, between, within, q.not_slow),
    )

-- For a counter of `f` ticks per second, a clock that is right to a microsecond, and readings below
-- 2 ^ 63: `tsc_init` leaves the rate that it computes in floating point in a round whose readings of the
-- counter lie closest together. Of the two numbers that it divides there, `x` ticks in `e`
-- microseconds, with `d` ticks in the round's two gaps: a million times `x` is at most `f * e + f`, and
-- `f * e` is at most a million times `x` and `d`, and `f`.
pub tsc_init-rate :
    (quotient : Quotient) (samples : ℕ → Sample) (f : ℕ)
    → ((i : ℕ) → i < 3 → Sound f (samples i))
    → (j : ℕ) × (j < 3)
      × ((k : ℕ) → k < 3 → spread (samples j) ≤ spread (samples k))
      × (tsc_init quotient samples ≡ rate quotient (samples j))
      × (ticks (samples j) * 1_000_000 ≤ f * elapsed (samples j) + f)
      × (f * elapsed (samples j)
          ≤ ticks (samples j) * 1_000_000 + f + spread (samples j) * 1_000_000)
unfolding tsc_init tsc_from
tsc_init-rate quotient samples f sound =
    let (narrow, _, _) = Sound-ticks (samples 0) (sound 0 (omega arith)) in
    let cy : ℕ = rate quotient (samples 0) in
    let first : tsc_init quotient samples ≡ tsc_from quotient samples 2 1 (spread (samples 0)) cy =
      ground (arith, narrow) in
    let (j, dmax, best) = tsc_from-Best quotient samples 2 1 (spread (samples 0)) cy 0 (record {
      before = omega arith;
      spread_is = refl;
      rate_is = refl;
      least = λ k lt. omega (arith, ap (λ m. spread (samples m)) {x = 0} {y = k} (omega arith));
    }) in
    let (_, high, low) = Sound-ticks (samples j) (sound j best.before) in
    (j, best.before, best.least, first ∙ best.rate_is, high, low)
