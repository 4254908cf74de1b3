-- ===== src/Daemon/Poll.antt =====
-- The polling loop of guestend/daemon.c: the child process reads the masks that the loaded program
-- logs and forwards each by an ioctl.
pub mod Scan
pub mod Drain
pub mod During
pub mod Missed
pub mod Stale
use huc.Base.{ℕ, zero, suc, true, false, List, [], ◌∷◌, ◌==◌, if◌then◌else◌}
use mathlib.Core.Option.{get_or}
use huc.Bpf.{BpfArray, max_entries}

module _ (b : BpfArray) where
  open b use {Map, lookup, update}

  -- `bpf_map_lookup_elem(map_fd[0], &key, &value)`: a failed lookup leaves `value` alone.
  abbrev pub lookup_into : Map → ℕ → ℕ → ℕ
  lookup_into m key value = get_or (lookup m key) value

  -- `for (i = MAX_CPU; i > 0; i--)`: the masks that the ioctls of the rounds `i` to 1 carry, and
  -- what is left in `value` and in the map. A round forwards a nonzero `value` and clears the entry.
  unfoldable pub scan : ℕ → ℕ → Map → List ℕ × ℕ × Map
  scan zero value m = ([], value, m)
  scan (suc i) value m =
      let mask = lookup_into m (suc i) value in
      elim (mask == 0) [
        | true ↦ scan i mask m
        | false ↦
            let (sent, value', m') = scan i 0 (update m (suc i) 0) in (mask ∷ sent, value', m')
      ]

  -- One round of the polling loop, after the sleep: nothing while the counter is zero, else the scan
  -- and the counter set to what `value` then holds.
  unfoldable pub poll : ℕ → Map → List ℕ × ℕ × Map
  poll value m =
      let count = lookup_into m 0 value in
      if count == 0
      then ([], count, m)
      else let (sent, value', m') = scan max_entries count m in (sent, value', update m' 0 value')
