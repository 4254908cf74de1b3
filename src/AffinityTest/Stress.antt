-- ===== src/AffinityTest/Stress.antt =====
-- `doSomething` of guestend/affinity_test/complex.c: a thread that counts up bytes of a region at random
-- places. `main` starts four of them on the same region without a lock, so that what the bytes hold then
-- is left open: modelled is which bytes a thread counts up.
use huc.Base.{
  ℕ, zero, suc, ◌+◌, ◌*◌, ◌-◌, ◌/◌, ◌%◌, ◌≤◌, ◌<◌, ◌≡◌, refl, Bool, Option, none, some, List, [],
  ◌∷◌, ◌==◌, if◌then◌else◌, ltb, arith, length, dec_lt, ℕ_discrete,
}
use mathlib.Core.Path.{subst}
use huc.AffinityTest.{cpu_set_s, setaffinity_thread_self}

abbrev pub buffer_size : ℕ
buffer_size = 8 * 1024 * 1024

abbrev pub loop_times : ℕ
loop_times = 0xffff

-- The indices of the bytes of `myregion` that the thread has counted up, newest first, how many calls of
-- `rand` it has made, and of `sched_yield`.
pub record Stress : Type 0 where
  pub counted : List ℕ
  pub drawn : ℕ
  pub yields : ℕ

-- `rand` is what the thread's own calls return, in turn.
module _ (rand : ℕ → ℕ) where
  -- `index = rand(); while (index >= BUFFER_SIZE) index = rand();` from the call number `k` on: the index,
  -- and the number of the next call.
  unfoldable pub draw : ℕ → ℕ → Option (ℕ × ℕ)
  draw zero k = none
  draw (suc calls) k =
      let more = draw calls (suc k) in
      if ltb (rand k) buffer_size then some (rand k, suc k) else more

  -- How many of the first `k` calls of `rand` returned `a`.
  abbrev pub times : ℕ → ℕ → ℕ
  times a zero = 0
  times a (suc k) = (if rand k == a then 1 else 0) + times a k

  -- How many of them returned an index of the region.
  abbrev pub accepted : ℕ → ℕ
  accepted zero = 0
  accepted (suc k) = (if ltb (rand k) buffer_size then 1 else 0) + accepted k

  record Drawn (k index k' : ℕ) : Type 0 where
    inside : index < buffer_size
    one_more : accepted k' ≡ accepted k + 1
    named : (a : ℕ) → a < buffer_size → times a k' ≡ (if index == a then 1 else 0) + times a k

  -- The inner loop ends where `rand` gives an index.
  draw-Drawn :
      (calls k j : ℕ)
      → j < calls
      → rand (k + j) < buffer_size
      → (index k' : ℕ) × (draw calls k ≡ some (index, k')) × Drawn k index k'
  unfolding draw
  draw-Drawn zero k j lt hit = absurd (omega arith)
  draw-Drawn (suc calls) k j lt hit = elim (dec_lt (rand k) buffer_size) [
    | yes inside ↦ (
      rand k,
      suc k,
      ground (arith, inside),
      record { inside = inside; one_more = ground (arith, inside); named = λ a lt. refl },
    )
    | no outside ↦ elim (ℕ_discrete j 0) [
      | yes first ↦
          absurd (outside (subst (λ i. rand i < buffer_size) {x = k + j} {y = k} (omega arith) hit))
      | no later ↦
          let (index, k', e, d) = draw-Drawn calls (suc k) (j - 1) (omega arith) (
            subst (λ i. rand i < buffer_size) {x = k + j} {y = suc k + (j - 1)} (omega arith)
              hit) in
          (
            index,
            k',
            ground (arith, outside, e),
            record {
              inside = d.inside;
              one_more = ground (arith, d.one_more, outside);
              named = λ a lt. ground (arith, d.named a lt, outside, lt);
            },
          )
    ]
  ]

module _ (rand : ℕ → ℕ) (fuel : ℕ) where
  -- `n` rounds of the loop from `i` on.
  unfoldable pub rounds : ℕ → ℕ → Stress → Option Stress
  rounds zero i s = some s
  rounds (suc n) i s = elim (draw rand fuel s.drawn) [
    | none ↦ none
    | some (index, k) ↦ rounds n (suc i) (record {
      counted = index ∷ s.counted;
      drawn = k;
      yields = if i % 50 == 0 then s.yields + 1 else s.yields;
    })
  ]

  -- `doSomething(arg)`, `target_cpu` being `none` if it is negative: the masks that it asks for, and what
  -- it leaves. `ok` says whether `sched_setaffinity` succeeds; the thread goes on in both cases.
  unfoldable pub do_something : Option ℕ → Bool → Stress → Option (List ℕ × Stress)
  do_something target ok s = elim (rounds loop_times 0 s) [
    | none ↦ none
    | some t ↦
        some (elim target [ none ↦ [] | some cpu ↦ (setaffinity_thread_self cpu ok).0 ∷ [] ], t)
  ]

-- The mask that the thread asks for.
abbrev pub asked : Option ℕ → List ℕ
asked none = []
asked (some cpu) = cpu_set_s cpu 0 ∷ []

do_something-rounds :
    (rand : ℕ → ℕ) (fuel : ℕ) (target : Option ℕ) (ok : Bool) (s t : Stress)
    → rounds rand fuel loop_times 0 s ≡ some t
    → do_something rand fuel target ok s ≡ some (asked target, t)
unfolding do_something setaffinity_thread_self
do_something-rounds rand fuel none ok s t e = ground (arith, e)
do_something-rounds rand fuel (some cpu) ok s t e = ground (arith, e)

-- How often `a` is in the list.
abbrev pub count : ℕ → List ℕ → ℕ
count a [] = 0
count a (x ∷ xs) = (if x == a then 1 else 0) + count a xs

-- After `i` rounds.
record Counted (rand : ℕ → ℕ) (i : ℕ) (s : Stress) : Type 0 where
  indices : accepted rand s.drawn ≡ i
  size : length s.counted ≡ i
  yielded : s.yields ≡ (i + 49) / 50
  inside : (a : ℕ) → a < buffer_size → count a s.counted ≡ times rand a s.drawn
  outside : (a : ℕ) → buffer_size ≤ a → count a s.counted ≡ 0

abbrev round : ℕ → ℕ → ℕ → Stress → Stress
round i index k s = record {
  counted = index ∷ s.counted;
  drawn = k;
  yields = if i % 50 == 0 then s.yields + 1 else s.yields;
}

round-Counted :
    (rand : ℕ → ℕ) (i index k : ℕ) (s : Stress)
    → Drawn rand s.drawn index k
    → Counted rand i s
    → Counted rand (suc i) (round i index k s)
round-Counted rand i index k s d g = record {
  indices = omega (arith, d.one_more, g.indices);
  size = omega (arith, g.size);
  yielded = ground (arith, g.yielded);
  inside = λ a lt. ground (arith, g.inside a lt, d.named a lt);
  outside = λ a le. ground (arith, g.outside a le, d.inside);
}

-- `rand` returns an index within every `gap` calls.
abbrev pub Hits : (ℕ → ℕ) → ℕ → Type 0
Hits rand gap = (k : ℕ) → (j : ℕ) × (j < gap) × (rand (k + j) < buffer_size)

module _ (rand : ℕ → ℕ) (fuel gap : ℕ) (hits : Hits rand gap) (enough : gap ≤ fuel) where
  rounds-Counted :
      (n i : ℕ) (s : Stress)
      → Counted rand i s
      → (t : Stress) × (rounds rand fuel n i s ≡ some t) × Counted rand (i + n) t
  unfolding rounds
  rounds-Counted zero i s g =
      (s, refl, subst (λ k. Counted rand k s) {x = i} {y = i + 0} (omega arith) g)
  rounds-Counted (suc n) i s g =
      let (j, lt, hit) = hits s.drawn in
      let (index, k, e, d) = draw-Drawn rand fuel s.drawn j (omega arith) hit in
      let (t, run, g') =
        rounds-Counted n (suc i) (round i index k s) (round-Counted rand i index k s d g) in
      (
        t,
        ground (arith, e, run),
        subst (λ k. Counted rand k t) {x = suc i + n} {y = i + suc n} (omega arith) g',
      )

  -- If `rand` returns an index to the thread within every `gap` calls, and there is fuel for `gap` of them,
  -- the thread ends, whether or not it was pinned, having asked for its CPU if it has one. In its 65535
  -- rounds it yields 1311 times, and it counts up 65535 bytes, all of them in the region: each as often
  -- as its calls of `rand` named it.
  pub do_something_lem :
      (target : Option ℕ) (ok : Bool)
      → (t : Stress) × (do_something rand fuel target ok
            (record { counted = []; drawn = 0; yields = 0 })
          ≡ some (asked target, t))
        × (t.yields ≡ 1311)
        × (length t.counted ≡ 65535)
        × ((a : ℕ) → a < buffer_size → count a t.counted ≡ times rand a t.drawn)
        × ((a : ℕ) → buffer_size ≤ a → count a t.counted ≡ 0)
  do_something_lem target ok =
      let s : Stress = record { counted = []; drawn = 0; yields = 0 } in
      let start : Counted rand 0 s = record {
        indices = refl;
        size = refl;
        yielded = refl;
        inside = λ a lt. refl;
        outside = λ a le. refl;
      } in
      let (t, e, g) = rounds-Counted loop_times 0 s start in
      (
        t,
        do_something-rounds rand fuel target ok s t e,
        omega (arith, g.yielded),
        g.size,
        g.inside,
        g.outside,
      )
