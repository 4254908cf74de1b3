-- ===== src/AffinityTest/Target.antt =====
-- The masks of the programs that pin to one CPU are those of `runon`.
use huc.Base.{
  ℕ, ◌^◌, ◌≡◌, ap, ◌∙◌, sym, some, [], ◌∷◌, map, true, arith, bit_or-zero, pow-mod_pow, dec_lt,
}
use huc.Mlib.{cpu_set, runon_mask}
use huc.Pipeline.Pinning.{probed_mask}
use huc.AffinityTest.{cpu_set_s, setaffinity_thread_self, pin_target, complex_requests}

cpu_set_s-probed_mask : (cpus cpu : ℕ) → cpu_set_s cpu 0 ≡ probed_mask cpus cpu
unfolding runon_mask cpu_set
cpu_set_s-probed_mask cpus cpu = elim (dec_lt cpu 1024) [
  | yes lt ↦
      ground (arith, bit_or-zero (2 ^ cpu))
      ∙ sym (pow-mod_pow cpu 64)
      ∙ ground (arith, bit_or-zero (2 ^ cpu))
  | no ge ↦ ground arith
]

-- Whatever CPU they are given, `setaffinity_thread_self` of complex.c and the `main` functions of
-- affinity_test.c and yield_affinity_test.c ask for the mask that the tracing program reads from a
-- `runon` for that CPU, on a guest of any number of CPUs.
targets-runon :
    (cpus cpu : ℕ)
    → ((setaffinity_thread_self cpu true).0 ≡ probed_mask cpus cpu)
      × ((pin_target 2 (some cpu) true).0 ≡ probed_mask cpus cpu ∷ [])
unfolding setaffinity_thread_self pin_target
targets-runon cpus cpu =
    (cpu_set_s-probed_mask cpus cpu, ap (λ t. t ∷ []) (cpu_set_s-probed_mask cpus cpu))

-- The four threads of complex.c ask together for what four calls of `runon` for that CPU would.
complex_requests-runon :
    (cpus cpu : ℕ)
    → complex_requests 2 (some cpu) ≡ map (probed_mask cpus) (cpu ∷ cpu ∷ cpu ∷ cpu ∷ [])
unfolding complex_requests setaffinity_thread_self
complex_requests-runon cpus cpu = ap (λ t. t ∷ t ∷ t ∷ t ∷ []) (cpu_set_s-probed_mask cpus cpu)
