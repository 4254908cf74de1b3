-- ===== src/Tests/Overlap.antt =====
-- Calls of the program that overlap on two CPUs, or with the daemon's scan.
use huc.Base.{ℕ, ◌≤◌, ◌≡◌, ◌==◌, refl, [], ◌∷◌, some, arith, if◌then◌else◌}
use huc.Bpf.{bpf_prog1}
use huc.Bpf.Race.{
  Step, idle, entered, checked, added, indexed, at_cpu, Cpus, Reach, enter, check, add, here, next,
  cleared,
}
use huc.Bpf.Race.Count.{counter-adds}
use huc.Bpf.Race.Loss.{overlap_passes_guard, reset_stores_mask_in_counter}
use huc.Bpf.Log.{bpf_prog1-IsLog}
use huc.Daemon.Poll.{poll}
use huc.Daemon.Poll.Scan.{nonzero}
use huc.Daemon.Poll.During.{poll_during}
use huc.Daemon.Poll.Missed.{call_at}
use huc.Daemon.Poll.Stale.{late_call}
use huc.Tests.Data.{array, zeros, zeros-IsLog}

abbrev none_inside : Cpus array
none_inside = record { map = zeros; locals = λ i. idle; adds = 0 }

abbrev nearly_full : Cpus array
nearly_full = record none_inside { map = λ j. if j == 0 then 62 else 0 }

-- CPU 3 has counted a call with the mask 5.
abbrev one_counted : Cpus array
one_counted = record {
  map = array.update zeros 0 1;
  locals = at_cpu 3 (added 5) (at_cpu 3 (checked 5) (at_cpu 3 (entered 5) (λ i. idle)));
  adds = 1;
}

counter-adds_example :
    (array.lookup one_counted.map 0 ≡ some 1)
    × ((i mask index : ℕ) → one_counted.locals i ≡ indexed mask index → (1 ≤ index) × (index ≤ 1))
counter-adds_example =
    counter-adds array 0 {s = none_inside} {t = one_counted}
      (next (next (next here (enter 3 5 refl)) (check 3 5 0 refl refl (omega arith)))
        (add 3 5 0 refl refl))
      refl (λ i. refl) refl (omega arith)

overlap_passes_guard_example :
    (t : Cpus array) × Reach array nearly_full t
    × (array.lookup t.map 0 ≡ some 64)
    × (bpf_prog1 array t.map 8 ≡ array.update t.map 0 65)
overlap_passes_guard_example =
    overlap_passes_guard array nearly_full 0 1 6 7 8 (omega arith) refl refl refl

reset_stores_mask_in_counter_example :
    (u v t : Cpus array) × Reach array none_inside u
    × (u.locals 0 ≡ added 6)
    × Step array (cleared array u) v
    × (v.locals 0 ≡ indexed 6 0)
    × Step array v t
    × (array.lookup t.map 0 ≡ some 6)
    × (t.locals 0 ≡ idle)
reset_stores_mask_in_counter_example =
    reset_stores_mask_in_counter array none_inside 0 6 0 refl refl (omega arith)

-- A call with the mask 2 is in the log when the scan starts; one with the mask 3 comes before the lookup
-- of key 1, and one with the mask 1 some rounds later.
late_call_example :
    let (sent, _, m') = poll_during array (call_at 1 3) 0 (bpf_prog1 array zeros 2) in
    (sent ≡ 1 ∷ 2 ∷ [])
    × ((w : ℕ) → poll array w m' ≡ ([], 0, m'))
    × ((w : ℕ) → (poll array w (bpf_prog1 array m' 1)).0 ≡ 1 ∷ 3 ∷ 1 ∷ [])
unfolding nonzero
late_call_example =
    late_call array 0 (bpf_prog1 array zeros 2) (2 ∷ []) 3 1 1
      (bpf_prog1-IsLog array zeros [] 2 zeros-IsLog (omega arith)) (omega arith) (omega arith)
      (omega arith) (λ e. omega arith) (λ e. omega arith)
