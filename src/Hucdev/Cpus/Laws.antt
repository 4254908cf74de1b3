-- ===== src/Hucdev/Cpus/Laws.antt =====
-- The vCPU loops visit every vCPU once, in order, and end.
use huc.Base.{ℕ, zero, suc, ◌+◌, ◌<◌, ◌≡◌, none, some, List, [], ◌++◌, arith}
use huc.Hucdev.{Effect}
use huc.Hucdev.Cpus.{CpuTable, for_each_cpu}

-- The machine has `n` vCPUs, vCPU `i` on thread `thread i`: what `qemu_get_cpu` documents.
pub record Vcpus (get_cpu : CpuTable) (n : ℕ) (thread : ℕ → ℕ) : Type 0 where
  pub present : (i : ℕ) → i < n → get_cpu i ≡ some (thread i)
  pub absent : get_cpu n ≡ none

-- The rounds of vCPU `i` to `i + k - 1`.
abbrev pub rounds : (ℕ → ℕ → List Effect) → (ℕ → ℕ) → ℕ → ℕ → List Effect
rounds body thread i zero = []
rounds body thread i (suc k) = body i (thread i) ++ rounds body thread (i + 1) k

module _ {get_cpu : CpuTable} {n : ℕ} {thread : ℕ → ℕ} (v : Vcpus get_cpu n thread) where
  -- With more fuel than vCPUs the loop from `i` runs the rounds of the rest, and counts to `n`.
  pub for_each_cpu-rounds :
      (body : ℕ → ℕ → List Effect) (k i fuel : ℕ)
      → i + k ≡ n
      → k < fuel
      → for_each_cpu get_cpu body fuel i ≡ some (rounds body thread i k, n)
  unfolding for_each_cpu
  for_each_cpu-rounds body k i zero e lt = absurd (omega arith)
  for_each_cpu-rounds body zero i (suc fuel) e lt = ground (arith, v.absent)
  for_each_cpu-rounds body (suc k) i (suc fuel) e lt = ground (
    arith,
    v.present i (omega arith),
    for_each_cpu-rounds body k (i + 1) fuel (omega arith) (omega arith),
  )
