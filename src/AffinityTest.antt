-- ===== src/AffinityTest.antt =====
-- The programs under guestend/affinity_test, which pin threads of the guest: complex.c,
-- split_thread_test.c, affinity_test.c and yield_affinity_test.c.
pub mod Split
pub mod Counter
pub mod Tally
pub mod Target
pub mod Stress
use huc.Base.{
  ℕ, ◌^◌, ◌==◌, Bool, true, false, Option, none, some, List, [], ◌∷◌, map, if◌then◌else◌, ltb,
  bit_or,
}

-- `CPU_SET_S(cpu, SET_SIZE, set)` on a set of 64 bits; a CPU beyond it is ignored.
abbrev pub cpu_set_s : ℕ → ℕ → ℕ
cpu_set_s cpu set = if ltb cpu 64 then bit_or set (2 ^ cpu) else set

-- `setaffinity_thread_self(cpu)` of complex.c: the mask that it asks for, and whether it returns 0, as
-- `sched_setaffinity` succeeds or not.
unfoldable pub setaffinity_thread_self : ℕ → Bool → ℕ × Bool
setaffinity_thread_self cpu ok = (cpu_set_s cpu 0, ok)

-- `setaffinity_allno0_thread_self()` of complex.c
unfoldable pub setaffinity_allno0_thread_self : Bool → ℕ × Bool
setaffinity_allno0_thread_self ok = (cpu_set_s 3 (cpu_set_s 2 (cpu_set_s 1 0)), ok)

-- The mask of a thread of split_thread_test.c whose zone starts with the byte `zone`.
unfoldable pub zone_mask : ℕ → ℕ
zone_mask zone = if zone == 0 then cpu_set_s zone 0 else cpu_set_s 3 (cpu_set_s 2 (cpu_set_s 1 0))

-- The first bytes of `zone0` to `zone7`.
abbrev pub zones : List ℕ
zones = 0 ∷ 1 ∷ 1 ∷ 1 ∷ 1 ∷ 1 ∷ 1 ∷ 1 ∷ []

-- The masks that the threads of split_thread_test.c ask for, in the order in which they are created.
unfoldable pub split_requests : ℕ → List ℕ
unfolding zone_mask
split_requests split_load = if split_load == 1 then map zone_mask zones else []

-- The start of `main` in affinity_test.c and yield_affinity_test.c, `target_cpu` being `none` if it is
-- negative: the masks that are asked for, and whether `main` goes on.
unfoldable pub pin_target : ℕ → Option ℕ → Bool → List ℕ × Bool
pin_target argc none ok = if argc == 2 then ([], true) else ([], false)
pin_target argc (some cpu) ok = if argc == 2 then (cpu_set_s cpu 0 ∷ [], ok) else ([], false)

-- The masks that the four threads of complex.c ask for, `target_cpu` being `none` if it is negative.
unfoldable pub complex_requests : ℕ → Option ℕ → List ℕ
unfolding setaffinity_thread_self
complex_requests argc none = []
complex_requests argc (some cpu) =
    let asked = (setaffinity_thread_self cpu true).0 in
    if argc == 2 then asked ∷ asked ∷ asked ∷ asked ∷ [] else []
