-- ===== src/AffinityTest/Split.antt =====
-- What split_thread_test.c does to the host.
use mathlib.Core.Logic.Or
use mathlib.Core.List.{Mem, Perm, mem-cons, not-mem-nil, mem-cons_self, mem-cons_of_mem}
use mathlib.Core.List.Perm
use mathlib.Core.Bool.{Bool-set}
use mathlib.Core.Path.{subst}
use huc.Base.{
  ℕ, zero, suc, ◌<◌, ◌≡◌, refl, ap, ◌∙◌, some, List, [], ◌∷◌, arith, true, ◌||◌, ◌&&◌, length, ◌==◌,
  if◌then◌else◌, length-Perm, ltb, ℕ_discrete, zero-bit,
}
use huc.Hucdev.{HucState, Effect}
use huc.Hucdev.Cpus.{CpuTable, cpu_isset}
use huc.Hucdev.Cpus.Laws.{Vcpus}
use huc.Hucdev.Mmio.Affinity.{mask_after, Distinct, Host, granted, granted_idem}
use huc.Bpf.{BpfArray}
use huc.Bpf.Log.{IsLog}
use huc.Daemon.Poll.{poll}
use huc.Daemon.Poll.Drain.{log_all}
use huc.Pipeline.Affinity.{forward, asked, first_with, affinity_delivered}
use huc.Pipeline.Pinning.{elem}
use huc.AffinityTest.{split_requests, zone_mask}

-- Every mask in the list is 1 or 14.
abbrev Splits : List ℕ → Type 0
Splits [] = Unit
Splits (x ∷ xs) = ((x == 1 || x == 14) ≡ true) × Splits xs

cpu_isset_one : (j : ℕ) → cpu_isset j 1 ≡ (j == 0)
cpu_isset_one zero = refl
cpu_isset_one (suc j) = ap (λ b. b == 1) (zero-bit j) ∙ ground arith

cpu_isset_fourteen : (j : ℕ) → cpu_isset j 14 ≡ (ltb 0 j && ltb j 4)
cpu_isset_fourteen zero = refl
cpu_isset_fourteen (suc zero) = refl
cpu_isset_fourteen (suc (suc zero)) = refl
cpu_isset_fourteen (suc (suc (suc zero))) = refl
cpu_isset_fourteen (suc (suc (suc (suc j)))) = ap (λ b. b == 1) (zero-bit j) ∙ ground arith

first_with-split :
    (host : Host) (t j other : ℕ) (xs : List ℕ)
    → Splits xs
    → first_with host t j xs other ≡ (
        if j == 0
        then (if elem 1 xs then granted host t 1 other else other)
        else if ltb j 4
        then (if elem 14 xs then granted host t 14 other else other)
        else other)
first_with-split host t j other [] all = ground arith
first_with-split host t j other (x ∷ xs) all = elim (ℕ_discrete x 1) [
  | yes e ↦
      ap (λ y. asked host t j y (first_with host t j xs other)) e
      ∙ ground (
        arith,
        cpu_isset_one j,
        first_with-split host t j other xs all.1,
        granted_idem host t 1 other,
      )
  | no ne ↦
      let other_mask : x ≡ 14 = ground (arith, all.0) in
      ap (λ y. asked host t j y (first_with host t j xs other)) other_mask
      ∙ ground (
        arith,
        cpu_isset_fourteen j,
        first_with-split host t j other xs all.1,
        granted_idem host t 14 other,
      )
]

Mem-elem : (x : ℕ) (xs : List ℕ) → Mem x xs → elem x xs ≡ true
Mem-elem x [] m = absurd (not-mem-nil m)
Mem-elem x (y ∷ ys) m =
    Or.elim (Bool-set _ _) (mem-cons.0 m) (λ e. ground arith)
      (λ m'. ground (arith, Mem-elem x ys m'))

Mem-Splits : (x : ℕ) (xs : List ℕ) → Splits xs → Mem x xs → (x == 1 || x == 14) ≡ true
Mem-Splits x [] all m = absurd (not-mem-nil m)
Mem-Splits x (y ∷ ys) all m =
    Or.elim (Bool-set _ _) (mem-cons.0 m) (λ e. ap (λ z. z == 1 || z == 14) e ∙ all.0)
      (λ m'. Mem-Splits x ys all.1 m')

all-Splits : (xs : List ℕ) → ((x : ℕ) → Mem x xs → (x == 1 || x == 14) ≡ true) → Splits xs
all-Splits [] each = tt
all-Splits (x ∷ xs) each =
    (each x mem-cons_self, all-Splits xs (λ y m. each y (mem-cons_of_mem x m)))

-- The requests with `split_load`, in numbers.
split_requests_one : split_requests 1 ≡ 1 ∷ 14 ∷ 14 ∷ 14 ∷ 14 ∷ 14 ∷ 14 ∷ 14 ∷ []
unfolding split_requests zone_mask
split_requests_one = refl

-- split_thread_test.c with `split_load`, traced over an empty log on a guest of `n` vCPUs with distinct
-- threads: in whatever order its eight threads ask for their masks, the ioctls of the next round of
-- polling all return and leave the device's state alone, and the host is asked for CPU 0 alone for the
-- thread of vCPU 0 and for the CPUs 1 to 3 for those of the vCPUs 1 to 3. A thread for which it refuses
-- that, and every other, is left with what the host grants of the number of calls as a mask.
split_delivered :
    {get_cpu : CpuTable} {n : ℕ} {thread : ℕ → ℕ} (v : Vcpus get_cpu n thread) (fuel : ℕ)
    → n < fuel
    → Distinct n thread
    → (host : Host) (b : BpfArray) (value : ℕ) (m : BpfArray.Map b) (xs : List ℕ) (dev : HucState)
      (j before : ℕ)
    → IsLog b m []
    → Perm xs (split_requests 1)
    → j < n
    → (out : List Effect) × (forward get_cpu fuel dev (poll b value (log_all b m xs)).0
        ≡ some (dev, out))
      × (let counted = asked host (thread j) j 8 before in
          mask_after host (thread j) before out ≡ (
            if j == 0
            then granted host (thread j) 1 counted
            else if ltb j 4
            then granted host (thread j) 14 counted
            else counted))
split_delivered {thread} v fuel enough distinct host b value m xs dev j before q p lt =
    let same : Perm xs (1 ∷ 14 ∷ 14 ∷ 14 ∷ 14 ∷ 14 ∷ 14 ∷ 14 ∷ []) =
      subst (Perm xs) split_requests_one p in
    let eight : length xs ≡ 8 = length-Perm same in
    let all = all-Splits xs (λ x mem.
      Mem-Splits x _ (refl, (refl, (refl, (refl, (refl, (refl, (refl, (refl, tt))))))))
        ((Perm.mem_iff same).0 mem)) in
    let one_in : elem 1 xs ≡ true = Mem-elem 1 xs ((Perm.mem_iff same).1 mem-cons_self) in
    let fourteen_in : elem 14 xs ≡ true =
      Mem-elem 14 xs ((Perm.mem_iff same).1 (mem-cons_of_mem 1 mem-cons_self)) in
    let (out, e, gets) =
      affinity_delivered v fuel enough distinct host b value m xs dev j before q
        (omega (arith, eight)) (omega (arith, eight)) lt in
    (
      out,
      e,
      gets
          ∙ ap (λ l. first_with host (thread j) j xs (asked host (thread j) j l before)) eight
          ∙ first_with-split host (thread j) j _ xs all
          ∙ ground (arith, one_in, fourteen_in),
    )
