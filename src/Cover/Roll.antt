-- ===== src/Cover/Roll.antt =====
-- `roll` of guestend/simplified-spscq/cover.cpp: the misses of whole runs over a queue of 4096 slots, and
-- the check of an upper bound of their rate. The code computes the rates in floating point; here they
-- are exact fractions, whose difference is nowhere near the tolerance of 0.01.
use native.Mathlib.Nat.{mul-le-mul_left, mul-le-mul_right, mul-add, add-mul}
use huc.Base.{
  ℕ, zero, suc, ◌+◌, ◌-◌, ◌*◌, ◌/◌, ◌≤◌, ◌<◌, ◌≡◌, refl, ap, Bool, true, false, Option, none, some,
  ltb, arith, dec_lt, min,
}
use huc.Cover.{covered_cachelines, predict}
use huc.Cover.Laws.{covered_cachelines_closed}

-- `for (cur = ofs; cur < L; cur += b) misses += covered_cachelines(cur, b, L, K)` from `cur` on, with
-- `L = 4096` and `K = 8`: what is added. `none` means that the fuel of this loop or the `inner` fuel ran
-- out.
unfoldable pub misses_from : ℕ → ℕ → ℕ → ℕ → Option ℕ
misses_from inner b zero cur = none
misses_from inner b (suc fuel) cur = elim (ltb cur 4096) [
  | false ↦ some 0
  | true ↦ elim (covered_cachelines inner cur b 4096 8) [
    | none ↦ none
    | some lines ↦ elim (misses_from inner b fuel (cur + b)) [
      | none ↦ none
      | some misses ↦ some (lines + misses)
    ]
  ]
]

-- `predict - rate < -0.01`, where `predict` is `predict b / b` and `rate` is `misses / 4096`
unfoldable pub wrong_bound : ℕ → ℕ → Bool
wrong_bound b misses = ltb (100 * (4096 * predict b) + 4096 * b) (100 * (b * misses))

-- The loop over the offsets from `ofs` on, `n` of them: whether it goes on to the next batch. `some false`
-- is the result -1.
unfoldable pub roll_offsets : ℕ → ℕ → ℕ → ℕ → Option Bool
unfolding wrong_bound
roll_offsets fuel b ofs zero = some true
roll_offsets fuel b ofs (suc n) = elim (misses_from fuel b fuel ofs) [
  | none ↦ none
  | some misses ↦ elim (wrong_bound b misses) [
    | true ↦ some false
    | false ↦ roll_offsets fuel b (ofs + 1) n
  ]
]

-- The loop over the sizes of a batch from `b` on, `n` of them.
unfoldable pub roll_batches : ℕ → ℕ → ℕ → Option Bool
roll_batches fuel b zero = some true
roll_batches fuel b (suc n) = elim (roll_offsets fuel b 0 b) [
  | none ↦ none
  | some false ↦ some false
  | some true ↦ roll_batches fuel (b + 1) n
]

-- `roll()`: whether it returns 0, not -1.
unfoldable pub roll : ℕ → Option Bool
roll fuel = roll_batches fuel 1 64

-- A batch costs at most the formula's lines.
add_batch :
    (b lines misses width rest : ℕ)
    → lines ≤ width
    → b * misses ≤ (rest - b) * width
    → b ≤ rest
    → b * (lines + misses) ≤ rest * width
add_batch b lines misses width rest few less room = omega (
  arith,
  less,
  mul-add b lines misses,
  mul-le-mul_left b few,
  add-mul b (rest - b) width,
  ap (λ k. k * width) {x = b + (rest - b)} {y = rest} (omega arith),
)

-- Every batch of a run touches at most `predict b` lines, and the run has the batches that fit.
misses_from-predict :
    (inner b fuel cur : ℕ)
    → 0 < b
    → 513 < inner
    → 4096 - cur < fuel
    → (misses : ℕ) × (misses_from inner b fuel cur ≡ some misses)
      × (b * misses ≤ (4095 + b - cur) * predict b)
unfolding misses_from
misses_from-predict inner b zero cur pos deep enough = absurd (omega arith)
misses_from-predict inner b (suc fuel) cur pos deep enough = elim (dec_lt cur 4096) [
  | no past ↦ (0, ground arith, omega arith)
  | yes inside ↦
      let lines : ℕ = min 512 ((cur + b - 1) / 8) + 1 - cur / 8 in
      let counted : covered_cachelines inner cur b 4096 8 ≡ some lines =
        covered_cachelines_closed inner cur b 4096 pos (omega arith) in
      let (misses, e, less) = misses_from-predict inner b fuel (cur + b) pos deep (omega arith) in
      (
        lines + misses,
        ground (arith, counted, e),
        add_batch b lines misses (predict b) (4095 + b - cur) (omega arith)
            (omega (
              arith,
              less,
              ap (λ k. k * predict b) {x = 4095 + b - (cur + b)} {y = 4095 + b - cur - b}
                  (omega arith),
            ))
            (omega arith),
      )
]

-- The tolerance is wide enough for a run that does not end at a batch's end.
misses-tolerated :
    (b ofs misses : ℕ)
    → 0 < b
    → b ≤ 64
    → b * misses ≤ (4095 + b - ofs) * predict b
    → wrong_bound b misses ≡ false
unfolding wrong_bound
misses-tolerated b ofs misses pos le less =
    let longer : (4095 + b - ofs) * predict b ≤ (4095 + b) * predict b =
      mul-le-mul_right (predict b) (omega arith) in
    let short : (4095 + b) * predict b ≤ 4095 * predict b + b * 9 = omega (
      arith,
      add-mul 4095 b (predict b),
      mul-le-mul_left {m = predict b} {n = 9} b (omega arith),
    ) in
    ground (arith, less, longer, short)

roll_offsets_succeeds :
    (fuel b ofs n : ℕ) → 0 < b → b ≤ 64 → 4096 < fuel → roll_offsets fuel b ofs n ≡ some true
unfolding roll_offsets
roll_offsets_succeeds fuel b ofs zero pos le enough = refl
roll_offsets_succeeds fuel b ofs (suc n) pos le enough =
    let (misses, e, less) = misses_from-predict fuel b fuel ofs pos (omega arith) (omega arith) in
    ground (
      arith,
      e,
      misses-tolerated b ofs misses pos le less,
      roll_offsets_succeeds fuel b (ofs + 1) n pos le enough,
    )

roll_batches_succeeds :
    (fuel b n : ℕ) → 0 < b → b + n ≤ 65 → 4096 < fuel → roll_batches fuel b n ≡ some true
unfolding roll_batches
roll_batches_succeeds fuel b zero pos le enough = refl
roll_batches_succeeds fuel b (suc n) pos le enough = ground (
  arith,
  roll_offsets_succeeds fuel b 0 b pos (omega arith) enough,
  roll_batches_succeeds fuel (b + 1) n (omega arith) (omega arith) enough,
)

-- `roll` returns 0: the loops end, and for all batches of 1 to 64 slots, at every offset, the rate of
-- misses over the 4096 slots exceeds the formula's by at most 0.01.
pub roll_returns : (fuel : ℕ) → 4096 < fuel → roll fuel ≡ some true
unfolding roll
roll_returns fuel enough = roll_batches_succeeds fuel 1 64 (omega arith) (omega arith) enough
