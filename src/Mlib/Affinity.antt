-- ===== src/Mlib/Affinity.antt =====
-- The CPUs that `runon` allows, and conversions at one tick per nanosecond.
use huc.Base.{
  ℕ, zero, suc, ◌^◌, ◌≤◌, ◌<◌, ◌≡◌, ◌↔◌, ap, ◌∙◌, none, some, arith, bit, bit-bit_or, zero-bit,
  if◌then◌else◌, ◌==◌, ltb, bit-pow_self, bit-pow_below, bit-pow_above, bit-le-one, max, dec_lt,
}
use huc.Mlib.{cpu_set, set_all, runon_mask}

-- The digits of `1 << i`.
pub one_bit : (i j : ℕ) → bit (2 ^ i) j ≡ (if i == j then 1 else 0)
one_bit i j = elim (dec_lt i j) [
  | yes above ↦ ground (arith, bit-pow_above i j above)
  | no le ↦ elim (dec_lt j i) [
    | yes below ↦ ground (arith, bit-pow_below i j below)
    | no ge ↦
        let same : i ≡ j = omega arith in
        ap (λ k. bit (2 ^ k) j) same ∙ bit-pow_self j ∙ ground arith
  ]
]

bit-cpu_set :
    (i mask j : ℕ) → i < 1024 → bit (cpu_set i mask) j ≡ max (bit mask j) (if i == j then 1 else 0)
unfolding cpu_set
bit-cpu_set i mask j lt = ground (arith, bit-bit_or mask (2 ^ i) j, one_bit i j)

bit-set_all :
    (n mask j : ℕ) → n ≤ 1024 → bit (set_all n mask) j ≡ max (bit mask j) (if ltb j n then 1 else 0)
unfolding set_all
bit-set_all zero mask j le = ground arith
bit-set_all (suc n) mask j le = ground (
  arith,
  bit-cpu_set n (set_all n mask) j (omega arith),
  bit-set_all n mask j (omega arith),
  bit-le-one mask j,
)

-- `runon` with a CPU number below 1024 allows that CPU alone; with a negative number it allows
-- exactly the CPUs of the machine, if it has at most 1024.
bit-runon_mask :
    (num_cpus i j : ℕ)
    → num_cpus ≤ 1024
    → i < 1024
    → ((bit (runon_mask num_cpus (some i)) j ≡ 1) ↔ (j ≡ i))
      × ((bit (runon_mask num_cpus none) j ≡ 1) ↔ (j < num_cpus))
unfolding runon_mask
bit-runon_mask num_cpus i j le lt = (
  ground (arith, bit-cpu_set i 0 j lt, zero-bit j),
  ground (arith, bit-set_all num_cpus 0 j le, zero-bit j),
)
