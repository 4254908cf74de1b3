-- ===== src/Mlib/Spin.antt =====
-- `tsc_sleep_till` of guestend/simplified-spscq/mlib.h and `spin_for` of spscq.cpp, which wait for the
-- counter. What the counter shows is an input.
use huc.Base.{
  ℕ, zero, suc, ◌+◌, ◌-◌, ◌^◌, ◌≤◌, ◌<◌, ◌≡◌, ap, ◌∙◌, true, false, Option, none, some, ltb, u32,
  u64, arith, dec_lt, ℕ_discrete,
}

-- `while (rdtsc() < when)` of `tsc_sleep_till`, the `k`-th reading of the counter being `clock k`: the
-- number of the reading that ends it. `none` means that the fuel ran out.
unfoldable pub tsc_sleep_till : (ℕ → ℕ) → ℕ → ℕ → ℕ → Option ℕ
tsc_sleep_till clock when zero k = none
tsc_sleep_till clock when (suc fuel) k = elim (ltb (clock k) when) [
  | true ↦ tsc_sleep_till clock when fuel (k + 1)
  | false ↦ some k
]

-- `spin_for(spin, trash)`: the loop as above, which counts its rounds in `trash`, an `unsigned`.
unfoldable pub spin_rounds : (ℕ → ℕ) → ℕ → ℕ → ℕ → ℕ → Option ℕ
spin_rounds clock when zero k trash = none
spin_rounds clock when (suc fuel) k trash = elim (ltb (clock k) when) [
  | true ↦ spin_rounds clock when fuel (k + 1) (u32 (trash + 1))
  | false ↦ some trash
]

unfoldable pub spin_for : (ℕ → ℕ) → ℕ → ℕ → ℕ → Option ℕ
spin_for clock fuel spin trash = spin_rounds clock (u64 (clock 0 + spin)) fuel 1 trash

-- On a counter that advances from reading to reading, the wait ends: at the first reading, from the
-- `k`-th on, that is not below `when`, for which as much fuel as the counter is behind is enough.
tsc_sleep_till-first :
    (clock : ℕ → ℕ) (when fuel k : ℕ)
    → ((i : ℕ) → clock i < clock (i + 1))
    → when - clock k < fuel
    → (m : ℕ) × (tsc_sleep_till clock when fuel k ≡ some m)
      × (k ≤ m)
      × (m < k + fuel)
      × (when ≤ clock m)
      × ((i : ℕ) → k ≤ i → i < m → clock i < when)
unfolding tsc_sleep_till
tsc_sleep_till-first clock when zero k forward enough = absurd (omega arith)
tsc_sleep_till-first clock when (suc fuel) k forward enough = elim (dec_lt (clock k) when) [
  | no done ↦
      (k, ground arith, omega arith, omega arith, omega arith, λ i lo hi. absurd (omega arith))
  | yes early ↦
      let (m, e, le, within, reached, before) =
        tsc_sleep_till-first clock when fuel (k + 1) forward (omega (arith, forward k)) in
      (
        m,
        ground (arith, e),
        omega arith,
        omega arith,
        reached,
        λ i lo hi. elim (ℕ_discrete i k) [
          | yes e ↦ omega (arith, ap clock e)
          | no ne ↦ before i (omega arith) hi
        ],
      )
]

spin_rounds_counted :
    (clock : ℕ → ℕ) (when fuel k m trash : ℕ)
    → k ≤ m
    → m < k + fuel
    → when ≤ clock m
    → ((i : ℕ) → k ≤ i → i < m → clock i < when)
    → trash < 2 ^ 32
    → spin_rounds clock when fuel k trash ≡ some (u32 (trash + (m - k)))
unfolding spin_rounds
spin_rounds_counted clock when zero k m trash le enough reached before fits = absurd (omega arith)
spin_rounds_counted clock when (suc fuel) k m trash le enough reached before fits =
    elim (ℕ_discrete k m) [
      | yes e ↦ ground (arith, ap clock e)
      | no ne ↦
          ground (arith, before k (omega arith) (omega arith))
          ∙ spin_rounds_counted clock when fuel (k + 1) m (u32 (trash + 1)) (omega arith)
              (omega arith) reached (λ i lo hi. before i (omega arith) hi) (omega arith)
          ∙ ap some (omega arith)
    ]

-- On a counter that advances from reading to reading and does not overflow on the way, `spin_for` ends at
-- the first reading that is `spin` ticks after its first one, and has counted its rounds in `trash`.
spin_for_lem :
    (clock : ℕ → ℕ) (fuel spin trash : ℕ)
    → ((i : ℕ) → clock i < clock (i + 1))
    → clock 0 + spin < 2 ^ 64
    → spin < fuel
    → trash < 2 ^ 32
    → (m : ℕ) × (spin_for clock fuel spin trash ≡ some (u32 (trash + (m - 1))))
      × (clock 0 + spin ≤ clock m)
      × ((i : ℕ) → 1 ≤ i → i < m → clock i < clock 0 + spin)
unfolding spin_for
spin_for_lem clock fuel spin trash forward room enough fits =
    let when : ℕ = clock 0 + spin in
    let (m, _, le, within, reached, before) =
      tsc_sleep_till-first clock when fuel 1 forward (omega (arith, forward 0)) in
    (
      m,
      ap (λ w. spin_rounds clock w fuel 1 trash) (omega arith)
          ∙ spin_rounds_counted clock when fuel 1 m trash le within reached before fits,
      reached,
      before,
    )
