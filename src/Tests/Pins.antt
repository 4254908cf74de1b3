-- ===== src/Tests/Pins.antt =====
-- Programs of the guest that pin their threads, on the concrete machine.
use huc.Base.{
  length, ℕ, true, ◌+◌, ◌%◌, ◌==◌, if◌then◌else◌, ◌*◌, ◌≤◌, ◌<◌, ◌≡◌, ◌⊎◌, refl, some, [], ◌∷◌,
  arith,
}
use huc.AffinityTest.Counter.{
  Counting, Step, here, next, lock, add, at_worker, outside, locked, added,
}
use huc.AffinityTest.Counter.Completes.{counting_completes}
use huc.AffinityTest.Stress.{
  Stress, do_something, count, times, buffer_size, Hits, do_something_lem,
}

-- Thread 2 of affinity_test.c has counted once and still holds the mutex.
abbrev counted_once : Counting
counted_once = record {
  counter = 1;
  owner = some 2;
  workers = at_worker 2 (added 0xff_fffe) (at_worker 2 (locked 0xff_fffe) (λ i. outside 0xff_ffff));
}

counting_completes_example :
    (2 ≤ 4 * (3 * 0xff_ffff))
    × (((u : Counting) × Step 4 counted_once u)
        ⊎ (((i : ℕ) → i < 4 → counted_once.workers i ≡ outside 0) × (1 ≡ 4 * 0xff_ffff)))
counting_completes_example = counting_completes 4 0xff_ffff (omega arith) {t = counted_once} (
    next (next here (lock 2 0xff_fffe (omega arith) refl refl))
      (add 2 0xff_fffe (omega arith) refl))

-- Every other call of `rand` returns RAND_MAX.
abbrev rand : ℕ → ℕ
rand k = if k % 2 == 0 then 2_147_483_647 else k % 100

rand-Hits : Hits rand 2
rand-Hits k = ((k + 1) % 2, omega arith, ground arith)

do_something_lem_example :
    (t : Stress) × (do_something rand 2
        (some 3)
        true
        (record { counted = []; drawn = 0; yields = 0 })
      ≡ some (8 ∷ [], t))
    × (t.yields ≡ 1311)
    × (length t.counted ≡ 65535)
    × ((a : ℕ) → a < buffer_size → count a t.counted ≡ times rand a t.drawn)
    × ((a : ℕ) → buffer_size ≤ a → count a t.counted ≡ 0)
do_something_lem_example = do_something_lem rand 2 2 rand-Hits (omega arith) (some 3) true
