-- ===== src/AffinityTest/Counter.antt =====
-- The threads of guestend/affinity_test/affinity_test.c, which count under a mutex.
pub mod Totals
pub mod Completes
use huc.Base.{
  ℕ, zero, suc, ◌+◌, ◌*◌, ◌^◌, ◌≤◌, ◌<◌, ◌≡◌, ◌≢◌, ◌⊎◌, inl, inr, refl, ap, ◌∙◌, sym, Bool, true,
  false, Option, none, some, ◌==◌, if◌then◌else◌, u64, arith, ℕ_discrete, ==_refl, ==-false,
}

-- Where a thread stands, with the rounds that are left behind this one: before
-- `pthread_mutex_lock`, past it, or past the addition.
pub data Worker : Type 0 where
  outside : (left : ℕ) → Worker
  locked : (left : ℕ) → Worker
  added : (left : ℕ) → Worker

-- `counter`, the owner of `lock`, and the threads.
pub record Counting : Type 0 where
  pub counter : ℕ
  pub owner : Option ℕ
  pub workers : ℕ → Worker

abbrev pub at_worker : ℕ → Worker → (ℕ → Worker) → ℕ → Worker
at_worker i x workers j = if i == j then x else workers j

module _ (threads : ℕ) where
  -- A step of the thread `i`.
  pub data Step (s : Counting) : Counting → Type 0 where
    lock :
        (i left : ℕ)
        → i < threads
        → s.workers i ≡ outside (suc left)
        → s.owner ≡ none
        → Step s (record s { owner = some i; workers = at_worker i (locked left) s.workers })
    add :
        (i left : ℕ)
        → i < threads
        → s.workers i ≡ locked left
        → Step s (record s {
          counter = u64 (s.counter + 1);
          workers = at_worker i (added left) s.workers;
        })
    unlock :
        (i left : ℕ)
        → i < threads
        → s.workers i ≡ added left
        → Step s (record s { owner = none; workers = at_worker i (outside left) s.workers })

  pub data Reach (s : Counting) : Counting → Type 0 where
    here : Reach s s
    next : {t u : Counting} → Reach s t → Step t u → Reach s u

-- All threads before their first of `rounds` rounds.
abbrev pub counting : ℕ → Counting
counting rounds = record { counter = 0; owner = none; workers = λ i. outside rounds }

-- Whether a thread holds the mutex.
abbrev pub inside : Worker → Bool
inside (outside left) = false
inside (locked left) = true
inside (added left) = true
