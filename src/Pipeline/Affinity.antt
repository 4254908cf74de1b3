-- ===== src/Pipeline/Affinity.antt =====
-- A guest's affinity calls on their whole way: from `bpf_prog1` of guestend/bytecode.c through the map,
-- the polling loop of guestend/daemon.c and the driver to the device, which binds the vCPU threads.
use huc.Base.{
  ℕ, ◌≤◌, ◌<◌, ◌≡◌, refl, ap, ◌∙◌, Option, none, some, List, [], ◌∷◌, ◌++◌, arith, false, length,
  if◌then◌else◌, u32, zero-bit, ℕ_discrete,
}
use mathlib.Core.List.{reverse, reverse-append}
use huc.Hucdev.{HucState, Effect}
use huc.Hucdev.Cpus.{CpuTable, cpu_isset}
use huc.Hucdev.Cpus.Laws.{Vcpus}
use huc.Hucdev.Mmio.Affinity.{Host, granted, mask_after, mask_after-append, Distinct}
use huc.Driver.{ioctl, ioctl_sched_setaffinity}
use huc.Driver.Interrupt.{ioctl-set_affinity}
use huc.Bpf.{BpfArray}
use huc.Bpf.Log.{IsLog}
use huc.Daemon.Poll.{poll}
use huc.Daemon.Poll.Scan.{nonzero}
use huc.Daemon.Poll.Drain.{log_all, log_all-IsLog, poll_drains}

-- The ioctls of a round of polling, `ioctl(fd, IOCTL_SCHED_SETAFFINITY, &value)` for each mask.
unfoldable pub forward : CpuTable → ℕ → HucState → List ℕ → Option (HucState × List Effect)
forward get_cpu fuel dev [] = some (dev, [])
forward get_cpu fuel dev (mask ∷ masks) =
    elim (ioctl get_cpu fuel dev ioctl_sched_setaffinity mask false) [
      | none ↦ none
      | some (done, dev', out) ↦ elim (forward get_cpu fuel dev' masks) [
        | none ↦ none
        | some (dev'', rest) ↦ some (dev'', out ++ rest)
      ]
    ]

-- The host, and the thread of vCPU `j`.
module _ (host : Host) (t j : ℕ) where
  -- Its mask after a request for the mask `m` that the daemon forwards, cut to 32 bits.
  abbrev pub asked : ℕ → ℕ → ℕ
  asked m before = if cpu_isset j (u32 m) then granted host t (u32 m) before else before

  -- Its mask after requests for the masks `ms`, in this order.
  abbrev bound : ℕ → List ℕ → ℕ
  bound before [] = before
  bound before (m ∷ ms) = bound (asked m before) ms

  -- What the host grants of the first of the masks that has `j` and is not refused; else `other`.
  abbrev pub first_with : List ℕ → ℕ → ℕ
  first_with [] other = other
  first_with (m ∷ ms) other = asked m (first_with ms other)

  bound-append :
      (before : ℕ) (xs ys : List ℕ) → bound before (xs ++ ys) ≡ bound (bound before xs) ys
  bound-append before [] ys = refl
  bound-append before (x ∷ xs) ys = bound-append (asked x before) xs ys

  -- In reverse order the first mask wins.
  bound-reverse : (before : ℕ) (xs : List ℕ) → bound before (reverse xs) ≡ first_with xs before
  bound-reverse before [] = refl
  bound-reverse before (x ∷ xs) =
      ap (bound before) (reverse-append (x ∷ []) xs)
      ∙ bound-append before (reverse xs) (x ∷ [])
      ∙ ap (asked x) (bound-reverse before xs)

  -- A mask of zero binds no vCPU.
  bound-nonzero : (before : ℕ) (xs : List ℕ) → bound before (nonzero xs) ≡ bound before xs
  unfolding nonzero
  bound-nonzero before [] = refl
  bound-nonzero before (x ∷ xs) = elim (ℕ_discrete x 0) [
    | yes e ↦ ground (arith, bound-nonzero before xs, zero-bit j)
    | no ne ↦ ground (arith, bound-nonzero (asked x before) xs)
  ]

module _ {get_cpu : CpuTable} {n : ℕ} {thread : ℕ → ℕ} (v : Vcpus get_cpu n thread) (fuel : ℕ)
    (enough : n < fuel) (distinct : Distinct n thread) (host : Host) where
  forward-bound :
      (dev : HucState) (masks : List ℕ) (j before : ℕ)
      → j < n
      → (out : List Effect) × (forward get_cpu fuel dev masks ≡ some (dev, out))
        × (mask_after host (thread j) before out ≡ bound host (thread j) j before masks)
  unfolding forward
  forward-bound dev [] j before lt = ([], refl, refl)
  forward-bound dev (m ∷ ms) j before lt =
      let (out, e, gets) = ioctl-set_affinity v fuel enough distinct host dev m j before lt in
      let (rest, e', gets') = forward-bound dev ms j (asked host (thread j) j m before) lt in
      (
        out ++ rest,
        ground (arith, e, e'),
        mask_after-append host (thread j) before out rest
            ∙ ap (λ b. mask_after host (thread j) b rest) gets
            ∙ gets',
      )

  -- A round of polling over a log that is not empty, forwarded.
  pub log_delivered :
      (b : BpfArray) (value : ℕ) (m : BpfArray.Map b) (ms : List ℕ) (dev : HucState) (j before : ℕ)
      → IsLog b m ms
      → 0 < length ms
      → j < n
      → (out : List Effect) × (forward get_cpu fuel dev (poll b value m).0 ≡ some (dev, out))
        × (mask_after host (thread j) before out
            ≡ first_with host (thread j) j ms (asked host (thread j) j (length ms) before))
  log_delivered b value m ms dev j before q pos lt =
      let (sent, _, _) = poll_drains b value m ms q pos in
      let (out, e, gets) = forward-bound dev (length ms ∷ nonzero (reverse ms)) j before lt in
      (
        out,
        ap (forward get_cpu fuel dev) sent ∙ e,
        gets
            ∙ bound-nonzero host (thread j) j _ (reverse ms)
            ∙ bound-reverse host (thread j) j _ ms,
      )

  -- From the guest's calls to the host's: on a machine of `n` vCPUs with distinct threads, after 1 to
  -- 63 calls with the masks `xs` on an empty log, the ioctls of the next round of polling all return
  -- and leave the device's state alone. The host is asked for the masks, cut to 32 bits, for the thread
  -- of every vCPU in them: that of `j` ends with what the host grants of the earliest of the calls
  -- that has `j` and that it does not refuse; if there is none, likewise with the number of calls as a
  -- mask, else with the mask that it had.
  pub affinity_delivered :
      (b : BpfArray) (value : ℕ) (m : BpfArray.Map b) (xs : List ℕ) (dev : HucState) (j before : ℕ)
      → IsLog b m []
      → 0 < length xs
      → length xs ≤ 63
      → j < n
      → (out : List Effect) × (forward get_cpu fuel dev (poll b value (log_all b m xs)).0
          ≡ some (dev, out))
        × (mask_after host (thread j) before out
            ≡ first_with host (thread j) j xs (asked host (thread j) j (length xs) before))
  affinity_delivered b value m xs dev j before q pos le lt =
      log_delivered b value (log_all b m xs) xs dev j before
        (log_all-IsLog b m [] xs q (omega arith)) pos lt
