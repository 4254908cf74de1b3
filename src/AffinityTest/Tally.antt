-- ===== src/AffinityTest/Tally.antt =====
-- The threads of guestend/affinity_test/yield_affinity_test.c, which count with atomic additions.
use huc.Base.{
  ℕ, zero, suc, ◌+◌, ◌*◌, ◌^◌, ◌≤◌, ◌<◌, ◌≡◌, ◌⊎◌, inl, inr, refl, ap, u64, arith, ℕ_discrete, ◌-◌,
  ◌==◌, if◌then◌else◌,
}

-- `counter`, and the threads with the additions that are left.
pub record Tally : Type 0 where
  pub counter : ℕ
  pub left : ℕ → ℕ

abbrev pub set_left : ℕ → ℕ → (ℕ → ℕ) → ℕ → ℕ
set_left i x left j = if i == j then x else left j

module _ (threads : ℕ) where
  -- `__sync_fetch_and_add(&counter, 1)` by the thread `i`
  pub data Step (s : Tally) : Tally → Type 0 where
    add :
        (i n : ℕ)
        → i < threads
        → s.left i ≡ suc n
        → Step s (record { counter = u64 (s.counter + 1); left = set_left i n s.left })

  pub data Reach (s : Tally) : Tally → Type 0 where
    here : Reach s s
    next : {t u : Tally} → Reach s t → Step t u → Reach s u

-- All threads before their first of `rounds` additions.
abbrev pub tally : ℕ → Tally
tally rounds = record { counter = 0; left = λ i. rounds }

abbrev pub sum : ℕ → (ℕ → ℕ) → ℕ
sum zero f = 0
sum (suc n) f = f n + sum n f

sum_away : (n i x : ℕ) (f : ℕ → ℕ) → n ≤ i → sum n (set_left i x f) ≡ sum n f
sum_away zero i x f le = refl
sum_away (suc n) i x f le = ground (arith, sum_away n i x f (omega arith))

sum_at : (n i x : ℕ) (f : ℕ → ℕ) → i < n → sum n (set_left i x f) + f i ≡ sum n f + x
sum_at zero i x f lt = absurd (omega arith)
sum_at (suc n) i x f lt = elim (ℕ_discrete i n) [
  | yes e ↦ ground (arith, sum_away n i x f (omega arith), ap f e)
  | no ne ↦ ground (arith, sum_at n i x f (omega arith))
]

sum_start : (n rounds : ℕ) → sum n (λ i. rounds) ≡ n * rounds
sum_start zero rounds = omega arith
sum_start (suc n) rounds = ground (arith, sum_start n rounds)

-- Some thread has an addition left, or none has.
some_left : (n : ℕ) (f : ℕ → ℕ) → ((i k : ℕ) × (i < n) × (f i ≡ suc k)) ⊎ (sum n f ≡ 0)
some_left zero f = inr refl
some_left (suc n) f = elim (ℕ_discrete (f n) 0) [
  | no ne ↦ inl (n, f n - 1, omega arith, omega arith)
  | yes z ↦ elim (some_left n f) [
    | inl (i, k, lt, e) ↦ inl (i, k, omega arith, e)
    | inr none_left ↦ inr (omega (arith, none_left, z))
  ]
]

-- Every addition counts: what was added and what is left make up all.
Reach-sum :
    (threads rounds : ℕ) {t : Tally}
    → threads * rounds < 2 ^ 64
    → Reach threads (tally rounds) t
    → t.counter + sum threads t.left ≡ threads * rounds
Reach-sum threads rounds small here = omega (arith, sum_start threads rounds)
Reach-sum threads rounds small (next {t} r (add i n lt e)) =
    omega (arith, Reach-sum threads rounds small r, sum_at threads i n t.left lt, e)

-- However the additions of the threads interleave, none is lost: fewer than 2 ^ 64 in all, some thread
-- can always go on until each has made its own, and then the counter is their number.
tally_completes :
    (threads rounds : ℕ) {t : Tally}
    → threads * rounds < 2 ^ 64
    → Reach threads (tally rounds) t
    → ((u : Tally) × Step threads t u) ⊎ (t.counter ≡ threads * rounds)
tally_completes threads rounds {t} small r = elim (some_left threads t.left) [
  | inl (i, k, lt, e) ↦
      inl (record { counter = u64 (t.counter + 1); left = set_left i k t.left }, add i k lt e)
  | inr done ↦ inr (omega (arith, Reach-sum threads rounds small r, done))
]
