-- ===== src/Hucdev/Cpus.antt =====
-- The loops of qemu-patch/hucdev.c over the vCPUs, and the CPU masks.
pub mod Laws
use huc.Base.{
  ℕ, zero, suc, ◌+◌, Bool, Option, none, some, List, [], ◌∷◌, ◌++◌, bit, bit_or, ◌==◌,
  if◌then◌else◌,
}
use huc.Hucdev.{Effect, sched_setaffinity}

-- `qemu_get_cpu(i)`, which QEMU provides: the thread of the vCPU with index `i`, or NULL.
abbrev pub CpuTable : Type 0
CpuTable = ℕ → Option ℕ

-- `CPU_ISSET_S(i, SET_SIZE, set)` on a mask of 64 bits.
abbrev pub cpu_isset : ℕ → ℕ → Bool
cpu_isset i set = bit set i == 1

-- `cpu = qemu_get_cpu(i); while (cpu != NULL) { body; i++; cpu = qemu_get_cpu(i); }`, with fuel.
-- The result is what the rounds asked for and the final `i`; `none` means that the fuel ran out.
module _ (get_cpu : CpuTable) (body : ℕ → ℕ → List Effect) where
  unfoldable pub for_each_cpu : ℕ → ℕ → Option (List Effect × ℕ)
  for_each_cpu zero i = none
  for_each_cpu (suc fuel) i = elim (get_cpu i) [
    | none ↦ some ([], i)
    | some thread ↦ elim (for_each_cpu fuel (i + 1)) [
      | none ↦ none
      | some (out, n) ↦ some (body i thread ++ out, n)
    ]
  ]

-- The round of `hucdev_bufmmio_write` for register 3: a vCPU in the mask gets the mask.
abbrev pub pin_in_mask : ℕ → ℕ → ℕ → List Effect
pin_in_mask set i thread = if cpu_isset i set then sched_setaffinity thread set ∷ [] else []

-- The round of RESET and PIN_ON_SAME: every vCPU gets the mask.
abbrev pub pin_all : ℕ → ℕ → ℕ → List Effect
pin_all set i thread = sched_setaffinity thread set ∷ []

-- The rounds that only print.
abbrev pub count_only : ℕ → ℕ → List Effect
count_only i thread = []

-- `uint64_t value = 0xFFFFFFFF; memcpy(set, &value, SET_SIZE)` of RESET
abbrev pub reset_mask : ℕ
reset_mask = 0xffff_ffff

-- `set = CPU_ALLOC(MAX_CPU); CPU_SET_S(0, SET_SIZE, set)` of PIN_ON_SAME; `CPU_ALLOC` does not
-- clear, so the mask starts as `junk`.
abbrev pub pin_mask : ℕ → ℕ
pin_mask junk = bit_or junk 1
