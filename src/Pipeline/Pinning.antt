-- ===== src/Pipeline/Pinning.antt =====
-- What the repository is for: `runon` of guestend/simplified-spscq/mlib.c, called in the guest by the
-- benchmark's threads, binds the host's vCPU threads.
use huc.Base.{ℕ, some, List, [], ◌∷◌, false, Bool, ◌||◌, ◌==◌, u64}
use huc.Mlib.{runon_mask}

-- The eight bytes that `bpf_probe_read` takes of the mask with which `runon(name, core)` enters the
-- kernel, on a guest of `cpus` CPUs.
abbrev pub probed_mask : ℕ → ℕ → ℕ
probed_mask cpus core = u64 (runon_mask cpus (some core))

abbrev pub elem : ℕ → List ℕ → Bool
elem j [] = false
elem j (c ∷ cs) = c == j || elem j cs
