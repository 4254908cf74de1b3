-- ===== src/AffinityTest/Counter/Totals.antt =====
-- What the threads have yet to do, added up over all of them.
use huc.Base.{
  ℕ, zero, suc, ◌+◌, ◌*◌, ◌≤◌, ◌<◌, ◌≡◌, ◌≢◌, refl, ap, ◌∙◌, sym, if◌then◌else◌, arith, ℕ_discrete,
  ==_refl, ==-false,
}
use huc.AffinityTest.Counter.{Worker, outside, locked, added, at_worker}

-- The additions that a thread has yet to make.
abbrev pub todo : Worker → ℕ
todo (outside left) = left
todo (locked left) = suc left
todo (added left) = left

-- The steps that a thread has yet to make.
abbrev pub steps_left : Worker → ℕ
steps_left (outside left) = 3 * left
steps_left (locked left) = 3 * left + 2
steps_left (added left) = 3 * left + 1

abbrev pub total : (Worker → ℕ) → ℕ → (ℕ → Worker) → ℕ
total f zero w = 0
total f (suc n) w = f (w n) + total f n w

pub at_worker_self : (i : ℕ) (x : Worker) (w : ℕ → Worker) → at_worker i x w i ≡ x
at_worker_self i x w = ap (λ t. if t then x else w i) (==_refl i)

pub at_worker_other : (i j : ℕ) (x : Worker) (w : ℕ → Worker) → i ≢ j → at_worker i x w j ≡ w j
at_worker_other i j x w ne = ap (λ t. if t then x else w j) (==-false i j ne)

total_away :
    (f : Worker → ℕ) (n i : ℕ) (x : Worker) (w : ℕ → Worker)
    → n ≤ i
    → total f n (at_worker i x w) ≡ total f n w
total_away f zero i x w le = refl
total_away f (suc n) i x w le =
    omega
      (arith, ap f (at_worker_other i n x w (λ e. omega arith)), total_away f n i x w (omega arith))

pub total_at :
    (f : Worker → ℕ) (n i : ℕ) (x : Worker) (w : ℕ → Worker)
    → i < n
    → total f n (at_worker i x w) + f (w i) ≡ total f n w + f x
total_at f zero i x w lt = absurd (omega arith)
total_at f (suc n) i x w lt = elim (ℕ_discrete i n) [
  | yes e ↦ omega (
    arith,
    total_away f n i x w (omega arith),
    ap f (ap (at_worker i x w) (sym e) ∙ at_worker_self i x w),
    ap (λ k. f (w k)) e,
  )
  | no ne ↦ omega (arith, total_at f n i x w (omega arith), ap f (at_worker_other i n x w ne))
]

pub total_start :
    (f : Worker → ℕ) (n rounds : ℕ) → total f n (λ i. outside rounds) ≡ n * f (outside rounds)
total_start f zero rounds = omega arith
total_start f (suc n) rounds = ground (arith, total_start f n rounds)

pub total_done : (n : ℕ) (w : ℕ → Worker) → ((i : ℕ) → i < n → w i ≡ outside 0) → total todo n w ≡ 0
total_done zero w done = refl
total_done (suc n) w done =
    omega (arith, ap todo (done n (omega arith)), total_done n w (λ i lt. done i (omega arith)))
