-- ===== src/Mlib.antt =====
-- guestend/simplified-spscq/mlib.c: time conversion and thread affinity of the queue's benchmark.
pub mod Affinity
pub mod Tsc
pub mod Spin
use huc.Base.{
  ℕ, zero, suc, ◌*◌, ◌/◌, ◌^◌, Bool, true, false, Option, none, some, ◌==◌, if◌then◌else◌, ltb,
  bit_or, u64,
}

-- `ns2tsc(ns)` and `tsc2ns(tsc)`, with the global `ticks_per_second`
unfoldable pub ns2tsc : ℕ → ℕ → ℕ
ns2tsc ticks_per_second ns = u64 (ns * ticks_per_second) / 1_000_000_000

unfoldable pub tsc2ns : ℕ → ℕ → ℕ
tsc2ns ticks_per_second tsc = u64 (tsc * 1_000_000_000) / ticks_per_second

-- `CPU_SET(i, &cpumask)` on a `cpu_set_t` of 1024 bits; a CPU beyond it is ignored.
unfoldable pub cpu_set : ℕ → ℕ → ℕ
cpu_set i mask = if ltb i 1024 then bit_or mask (2 ^ i) else mask

-- `for (j = 0; j < NUM_CPUS; j++) CPU_SET(j, &cpumask)`
unfoldable pub set_all : ℕ → ℕ → ℕ
set_all zero mask = mask
set_all (suc n) mask = cpu_set n (set_all n mask)

-- The mask that `runon(name, i)` gives the calling thread; `none` is a negative `i`.
unfoldable pub runon_mask : ℕ → Option ℕ → ℕ
runon_mask num_cpus none = set_all num_cpus 0
runon_mask num_cpus (some i) = cpu_set i 0
