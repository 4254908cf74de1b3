-- ===== src/Hucdev/Mmio/Affinity.antt =====
-- The guest's affinity request: what the device asks the host to do with the vCPU threads.
use huc.Base.{
  ℕ, zero, suc, ◌+◌, ◌≤◌, ◌<◌, ◌≡◌, refl, ap, Option, none, some, List, [], ◌∷◌, ◌++◌, arith, u64,
  ◌==◌, if◌then◌else◌, ==_refl, ℕ_discrete,
}
use huc.Hucdev.{HucState, Effect, send, sched_setaffinity}
use huc.Hucdev.Cpus.{CpuTable, pin_in_mask, cpu_isset}
use huc.Hucdev.Cpus.Laws.{Vcpus, for_each_cpu-rounds, rounds}
use huc.Hucdev.Mmio.{bufmmio_write, set_affinity}

-- The host's `sched_setaffinity`: the mask that the thread has then, `none` for -1. The kernel refuses a
-- mask without a CPU that the thread may run on, and cuts others to those CPUs.
abbrev pub Host : Type 0
Host = ℕ → ℕ → Option ℕ

-- The mask of a thread with the mask `before` when the host is asked for `set`; the device goes on after
-- an error, which leaves the mask alone.
unfoldable pub granted : Host → ℕ → ℕ → ℕ → ℕ
granted host thread set before = elim (host thread set) [ none ↦ before | some got ↦ got ]

pub granted_idem :
    (host : Host) (t set b : ℕ) → granted host t set (granted host t set b) ≡ granted host t set b
unfolding granted
granted_idem host t set b = ground arith

-- The mask that a thread has after the requests, `before` being the one that it had.
abbrev pub mask_after : Host → ℕ → ℕ → List Effect → ℕ
mask_after host thread before [] = before
mask_after host thread before (send fd bytes ∷ es) = mask_after host thread before es
mask_after host thread before (sched_setaffinity t set ∷ es) =
    mask_after host thread (if t == thread then granted host thread set before else before) es

pub mask_after-append :
    (host : Host) (t b : ℕ) (xs ys : List Effect)
    → mask_after host t b (xs ++ ys) ≡ mask_after host t (mask_after host t b xs) ys
mask_after-append host t b [] ys = refl
mask_after-append host t b (send fd bytes ∷ xs) ys = mask_after-append host t b xs ys
mask_after-append host t b (sched_setaffinity u set ∷ xs) ys =
    mask_after-append host t (if u == t then granted host t set b else b) xs ys

-- Distinct vCPUs run on distinct threads.
abbrev pub Distinct : ℕ → (ℕ → ℕ) → Type 0
Distinct n thread = (i j : ℕ) → i < n → j < n → thread i ≡ thread j → i ≡ j

one_round :
    (host : Host) (set i u t b : ℕ)
    → mask_after host t b (pin_in_mask set i u)
      ≡ (if u == t then if cpu_isset i set then granted host t set b else b else b)
one_round host set i u t b = ground arith

module _ {n : ℕ} {thread : ℕ → ℕ} (distinct : Distinct n thread) (host : Host) (set : ℕ) where
  -- Rounds of later vCPUs leave a thread alone.
  pin_in_mask_past :
      (j b i k : ℕ)
      → i + k ≤ n
      → j < i
      → mask_after host (thread j) b (rounds (pin_in_mask set) thread i k) ≡ b
  pin_in_mask_past j b i zero le lt = refl
  pin_in_mask_past j b i (suc k) le lt =
      rw (mask_after-append, one_round)
        (ground (arith, distinct i j, pin_in_mask_past j b (i + 1) k (omega arith) (omega arith)))

  pin_in_mask_at :
      (j b i k : ℕ)
      → i + k ≤ n
      → i ≤ j
      → j < i + k
      → mask_after host (thread j) b (rounds (pin_in_mask set) thread i k)
        ≡ (if cpu_isset j set then granted host (thread j) set b else b)
  pin_in_mask_at j b i zero le lo hi = absurd (omega arith)
  pin_in_mask_at j b i (suc k) le lo hi = elim (ℕ_discrete i j) [
    | yes same ↦
        rw (mask_after-append, one_round, ap thread same, ==_refl, ap (λ x. cpu_isset x set) same)
          (pin_in_mask_past j (if cpu_isset j set then granted host (thread j) set b else b) (i + 1)
            k (omega arith) (omega arith))
    | no other ↦
        rw (mask_after-append, one_round)
          (ground (
            arith,
            distinct i j,
            pin_in_mask_at j b (i + 1) k (omega arith) (omega arith) (omega arith),
          ))
  ]

-- The set-affinity register on a machine of `n` vCPUs with distinct threads: the write returns, the
-- device's state is unchanged, and afterwards the thread of each vCPU in the mask has what the host
-- grants of the whole mask, that of any other vCPU the mask it had.
pub bufmmio_write-set_affinity :
    {get_cpu : CpuTable} {n : ℕ} {thread : ℕ → ℕ} (v : Vcpus get_cpu n thread) (fuel : ℕ)
    → n < fuel
    → Distinct n thread
    → (host : Host) (s : HucState) (val j before : ℕ) → j < n
    → (out : List Effect) × (bufmmio_write get_cpu fuel s 12 val 4 ≡ some (s, out))
      × (mask_after host (thread j) before out
          ≡ (if cpu_isset j (u64 val) then granted host (thread j) (u64 val) before else before))
unfolding bufmmio_write set_affinity
bufmmio_write-set_affinity {n} {thread} v fuel lt distinct host s val j before lt' = (
  rounds (pin_in_mask (u64 val)) thread 0 n,
  ground (arith, for_each_cpu-rounds v (pin_in_mask (u64 val)) n 0 fuel (omega arith) lt),
  pin_in_mask_at distinct host (u64 val) j before 0 n (omega arith) (omega arith) (omega arith),
)
