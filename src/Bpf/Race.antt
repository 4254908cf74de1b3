-- ===== src/Bpf/Race.antt =====
-- `bpf_prog1` of guestend/bytecode.c on several CPUs at once, and the daemon's reset of the counter
-- between their steps. `*top` is the entry 0 of the map itself: each access of it is a step.
pub mod Count
pub mod Loss
use huc.Base.{ℕ, ◌+◌, ◌≡◌, ◌≢◌, none, some, ◌==◌, if◌then◌else◌, u32, u64}
use huc.Bpf.{BpfArray}

-- Where a CPU stands: not in the program; in it, having read the mask; past the test for 63; past the
-- addition; past the read of the index.
pub data Local : Type 0 where
  idle : Local
  entered : (mask : ℕ) → Local
  checked : (mask : ℕ) → Local
  added : (mask : ℕ) → Local
  indexed : (mask index : ℕ) → Local

abbrev pub at_cpu : ℕ → Local → (ℕ → Local) → ℕ → Local
at_cpu i l locals j = if i == j then l else locals j

module _ (b : BpfArray) where
  open b use {Map, lookup, update}

  -- The map, the CPUs, and how many additions have been made.
  pub record Cpus : Type 0 where
    pub map : Map
    pub locals : ℕ → Local
    pub adds : ℕ

  -- A step of the program on CPU `i`.
  pub data Step (s : Cpus) : Cpus → Type 0 where
    enter :
        (i mask : ℕ)
        → s.locals i ≡ idle
        → Step s (record s { locals = at_cpu i (entered mask) s.locals })
    no_top :
        (i mask : ℕ)
        → s.locals i ≡ entered mask
        → lookup s.map 0 ≡ none
        → Step s (record s { locals = at_cpu i idle s.locals })
    full :
        (i mask : ℕ)
        → s.locals i ≡ entered mask
        → lookup s.map 0 ≡ some 63
        → Step s (record s { locals = at_cpu i idle s.locals })
    check :
        (i mask top : ℕ)
        → s.locals i ≡ entered mask
        → lookup s.map 0 ≡ some top
        → top ≢ 63
        → Step s (record s { locals = at_cpu i (checked mask) s.locals })
    add :
        (i mask top : ℕ)
        → s.locals i ≡ checked mask
        → lookup s.map 0 ≡ some top
        → Step s (record s {
          map = update s.map 0 (u64 (top + 1));
          locals = at_cpu i (added mask) s.locals;
          adds = s.adds + 1;
        })
    read_index :
        (i mask top : ℕ)
        → s.locals i ≡ added mask
        → lookup s.map 0 ≡ some top
        → Step s (record s { locals = at_cpu i (indexed mask (u32 top)) s.locals })
    store :
        (i mask index : ℕ)
        → s.locals i ≡ indexed mask index
        → Step s (record s { map = update s.map index mask; locals = at_cpu i idle s.locals })

  pub data Reach (s : Cpus) : Cpus → Type 0 where
    here : Reach s s
    next : {t u : Cpus} → Reach s t → Step t u → Reach s u

  -- The daemon's `bpf_map_update_elem` of entry 0 at the end of a round.
  abbrev pub cleared : Cpus → Cpus
  cleared s = record s { map = update s.map 0 0 }
