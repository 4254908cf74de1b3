-- ===== src/Bpf.antt =====
-- The array map `cpuindex_mask_maps` that guestend/bytecode.c declares and guestend/daemon.c reads,
-- and the program that fills it.
pub mod Log
pub mod Race
use huc.Base.{ℕ, ◌+◌, ◌≤◌, ◌<◌, ◌≡◌, Option, none, some, List, ◌==◌, if◌then◌else◌, u32, u64}

-- `MAX_ENTRIES`
abbrev pub max_entries : ℕ
max_entries = 64

-- A BPF_MAP_TYPE_ARRAY of `max_entries` 64-bit values, which the kernel provides: it holds every
-- key below its size from the start, and refuses every other.
pub record BpfArray : Type 1 where
  pub Map : Type 0
  pub lookup : Map → ℕ → Option ℕ
  pub update : Map → ℕ → ℕ → Map
  pub lookup_out : (m : Map) (k : ℕ) → max_entries ≤ k → lookup m k ≡ none
  pub lookup_in : (m : Map) (k : ℕ) → k < max_entries → (x : ℕ) × (lookup m k ≡ some x)
  pub lookup-update :
      (m : Map) (k v j : ℕ)
      → k < max_entries
      → lookup (update m k v) j ≡ (if k == j then some v else lookup m j)
  pub update_out : (m : Map) (k v : ℕ) → max_entries ≤ k → update m k v ≡ m

module _ (b : BpfArray) where
  open b use {Map, lookup, update}

  -- The body of `bpf_prog1` once `bpf_map_lookup_elem` has found the counter `top`.
  unfoldable pub log_mask : Map → ℕ → ℕ → Map
  log_mask m top cpu_set =
      if top == 63 then m else update (update m 0 (u64 (top + 1))) (u32 (u64 (top + 1))) cpu_set

  -- `bpf_prog1(ctx)`, hooked on `sched_setaffinity`; `cpu_set` is the mask that it reads from the
  -- traced call. One call at a time.
  unfoldable pub bpf_prog1 : Map → ℕ → Map
  unfolding log_mask
  bpf_prog1 m cpu_set = elim (lookup m 0) [ none ↦ m | some top ↦ log_mask m top cpu_set ]
