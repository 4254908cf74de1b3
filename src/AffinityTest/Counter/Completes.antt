-- ===== src/AffinityTest/Counter/Completes.antt =====
-- The count is exact, and the threads come to its end.
use huc.Base.{
  ℕ, zero, suc, ◌+◌, ◌*◌, ◌^◌, ◌≤◌, ◌<◌, ◌≡◌, ◌⊎◌, inl, inr, refl, ap, ◌∙◌, sym, true, false,
  Option, none, some, u64, arith, ℕ_discrete,
}
use mathlib.Core.Path.{subst}
use huc.AffinityTest.Counter.{
  Worker, outside, locked, added, Counting, at_worker, Step, lock, add, unlock, Reach, here, next,
  counting, inside,
}
use huc.AffinityTest.Counter.Totals.{
  todo, steps_left, total, at_worker_self, at_worker_other, total_at, total_start, total_done,
}

worker_cases :
    (w : Worker)
    → ((left : ℕ) × ((w ≡ locked left) ⊎ (w ≡ added left)))
      ⊎ ((w ≡ outside 0) ⊎ ((left : ℕ) × (w ≡ outside (suc left))))
worker_cases (outside zero) = inr (inl refl)
worker_cases (outside (suc left)) = inr (inr (left, refl))
worker_cases (locked left) = inl (left, inl refl)
worker_cases (added left) = inl (left, inr refl)

module _ (threads rounds : ℕ) (fits : threads * rounds < 2 ^ 64) where
  -- The additions made and to be made are all, and the mutex belongs to the thread that is inside.
  record Sound (s : Counting) : Type 0 where
    sum : s.counter + total todo threads s.workers ≡ threads * rounds
    holder : (i : ℕ) → i < threads → inside (s.workers i) ≡ true → s.owner ≡ some i
    held : (i : ℕ) → s.owner ≡ some i → (i < threads) × (inside (s.workers i) ≡ true)

  counting-Sound : Sound (counting rounds)
  counting-Sound = record {
    sum = omega (arith, total_start todo threads rounds);
    holder = λ i lt e. absurd (cc e);
    held = λ i e. absurd (cc e);
  }

  lock-Sound :
      (s : Counting) (i left : ℕ)
      → i < threads
      → s.workers i ≡ outside (suc left)
      → s.owner ≡ none
      → Sound s
      → Sound (record s { owner = some i; workers = at_worker i (locked left) s.workers })
  lock-Sound s i left lt at free q = record {
    sum = omega (arith, q.sum, total_at todo threads i (locked left) s.workers lt, ap todo at);
    holder = λ j lt' e. elim (ℕ_discrete i j) [
      | yes same ↦ ap some same
      | no ne ↦ absurd (
          cc (
            free,
            q.holder j lt' (ap inside (sym (at_worker_other i j (locked left) s.workers ne)) ∙ e),
          ))
    ];
    held = λ j e.
        let same : i ≡ j = cc e in
        (
          subst (λ k. k < threads) same lt,
          ap inside (
              ap (at_worker i (locked left) s.workers) (sym same)
              ∙ at_worker_self i (locked left) s.workers),
        );
  }

  add-Sound :
      (s : Counting) (i left : ℕ)
      → i < threads
      → s.workers i ≡ locked left
      → Sound s
      → Sound
          (record s { counter = u64 (s.counter + 1); workers = at_worker i (added left) s.workers })
  add-Sound s i left lt at q = record {
    sum =
        let less = total_at todo threads i (added left) s.workers lt in
        omega (arith, q.sum, less, ap todo at);
    holder = λ j lt' e. elim (ℕ_discrete i j) [
      | yes same ↦ q.holder i lt (ap inside at) ∙ ap some same
      | no ne ↦ q.holder j lt' (ap inside (sym (at_worker_other i j (added left) s.workers ne)) ∙ e)
    ];
    held = λ j e. elim (ℕ_discrete i j) [
      | yes same ↦ (
        subst (λ k. k < threads) same lt,
        ap inside (
            ap (at_worker i (added left) s.workers) (sym same)
            ∙ at_worker_self i (added left) s.workers),
      )
      | no ne ↦ (
        (q.held j e).0,
        ap inside (at_worker_other i j (added left) s.workers ne) ∙ (q.held j e).1,
      )
    ];
  }

  unlock-Sound :
      (s : Counting) (i left : ℕ)
      → i < threads
      → s.workers i ≡ added left
      → Sound s
      → Sound (record s { owner = none; workers = at_worker i (outside left) s.workers })
  unlock-Sound s i left lt at q = record {
    sum = omega (arith, q.sum, total_at todo threads i (outside left) s.workers lt, ap todo at);
    holder = λ j lt' e. elim (ℕ_discrete i j) [
      | yes same ↦
          let out : inside (at_worker i (outside left) s.workers j) ≡ false = ap inside (
            ap (at_worker i (outside left) s.workers) (sym same)
            ∙ at_worker_self i (outside left) s.workers) in
          absurd (cc (out, e))
      | no ne ↦
          let mine = q.holder i lt (ap inside at) in
          let other =
            q.holder j lt'
              (ap inside (sym (at_worker_other i j (outside left) s.workers ne)) ∙ e) in
          absurd (ne (cc (mine, other)))
    ];
    held = λ j e. absurd (cc e);
  }

  -- The steps of a run.
  abbrev pub steps : {t : Counting} → Reach threads (counting rounds) t → ℕ
  steps here = 0
  steps (next r st) = suc (steps r)

  steps_bounded :
      {t : Counting} (r : Reach threads (counting rounds) t)
      → steps r + total steps_left threads t.workers ≡ threads * (3 * rounds)
  steps_bounded here = omega (arith, total_start steps_left threads rounds)
  steps_bounded (next {t} r (lock i left lt at free)) = omega (
    arith,
    steps_bounded r,
    ap steps_left at,
    total_at steps_left threads i (locked left) t.workers lt,
  )
  steps_bounded (next {t} r (add i left lt at)) = omega (
    arith,
    steps_bounded r,
    ap steps_left at,
    total_at steps_left threads i (added left) t.workers lt,
  )
  steps_bounded (next {t} r (unlock i left lt at)) = omega (
    arith,
    steps_bounded r,
    ap steps_left at,
    total_at steps_left threads i (outside left) t.workers lt,
  )

  Reach-Sound : {t : Counting} → Reach threads (counting rounds) t → Sound t
  Reach-Sound here = counting-Sound
  Reach-Sound (next {t} r (lock i left lt at free)) = lock-Sound t i left lt at free (Reach-Sound r)
  Reach-Sound (next {t} r (add i left lt at)) = add-Sound t i left lt at (Reach-Sound r)
  Reach-Sound (next {t} r (unlock i left lt at)) = unlock-Sound t i left lt at (Reach-Sound r)

  -- No two threads are between `pthread_mutex_lock` and `pthread_mutex_unlock` at once.
  exclusive :
      {t : Counting} (i j : ℕ)
      → Reach threads (counting rounds) t
      → i < threads
      → j < threads
      → inside (t.workers i) ≡ true
      → inside (t.workers j) ≡ true
      → i ≡ j
  exclusive i j r hi hj at_i at_j =
      let q = Reach-Sound r in
      let mine = q.holder i hi at_i in let other = q.holder j hj at_j in cc (mine, other)

  -- While the mutex is free, a thread can take it, or all of the first `n` are done.
  some_waits :
      (t : Counting) (n : ℕ)
      → n ≤ threads
      → t.owner ≡ none
      → Sound t
      → ((i left : ℕ) × (i < threads) × (t.workers i ≡ outside (suc left)))
        ⊎ ((i : ℕ) → i < n → t.workers i ≡ outside 0)
  some_waits t zero le free q = inr (λ i lt. absurd (omega arith))
  some_waits t (suc n) le free q = elim (worker_cases (t.workers n)) [
    | inl (left, at) ↦
        let holds : inside (t.workers n) ≡ true = elim at [
          | inl e ↦ ap inside e
          | inr e ↦ ap inside e
        ] in
        absurd (cc (free, q.holder n (omega arith) holds))
    | inr (inr (left, at)) ↦ inl (n, left, omega arith, at)
    | inr (inl at) ↦ elim (some_waits t n (omega arith) free q) [
      | inl waits ↦ inl waits
      | inr done ↦ inr (λ i lt. elim (ℕ_discrete i n) [
        | yes e ↦ ap t.workers e ∙ at
        | no ne ↦ done i (omega arith)
      ])
    ]
  ]

  -- `threads` threads that add 1 to `counter` `rounds` times each under the mutex, fewer than 2^64 times
  -- in all: a run has at most `threads * (3 * rounds)` steps, and in every state that they reach some
  -- thread can go on, or all are done and the counter is exactly `threads * rounds`. So they never
  -- block each other, and no addition is lost.
  pub counting_completes :
      {t : Counting} (r : Reach threads (counting rounds) t)
      → (steps r ≤ threads * (3 * rounds))
        × (((u : Counting) × Step threads t u)
            ⊎ (((i : ℕ) → i < threads → t.workers i ≡ outside 0) × (t.counter ≡ threads * rounds)))
  counting_completes {t} r = (
    omega (arith, steps_bounded r),
    elim (owner_cases t.owner) [
      | inl (i, e) ↦
          let (lt, holds) = q.held i e in
          elim (worker_cases (t.workers i)) [
            | inl (left, inl at) ↦ inl (_, add i left lt at)
            | inl (left, inr at) ↦ inl (_, unlock i left lt at)
            | inr (inl at) ↦ absurd (cc (holds, ap inside at))
            | inr (inr (left, at)) ↦ absurd (cc (holds, ap inside at))
          ]
      | inr free ↦ elim (some_waits t threads (omega arith) free q) [
        | inl (i, left, lt, at) ↦ inl (_, lock i left lt at free)
        | inr done ↦ inr (done, omega (arith, q.sum, total_done threads t.workers done))
      ]
    ],
  )
    where
      q : Sound t
      q = Reach-Sound r

      owner_cases : (o : Option ℕ) → ((i : ℕ) × (o ≡ some i)) ⊎ (o ≡ none)
      owner_cases none = inr refl
      owner_cases (some i) = inl (i, refl)
