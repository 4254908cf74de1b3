-- ===== src/Pipeline/Rounds.antt =====
-- The polling loop of the daemon's child, round after round: what the guest calls between two rounds is
-- forwarded by the second.
use huc.Base.{
  ℕ, zero, suc, ◌<◌, ◌≡◌, refl, ap, ◌∙◌, sym, Option, none, some, List, [], ◌∷◌, ◌++◌, length, take,
  take_of_le, length-append, append-nil, append_assoc, arith, dec_lt,
}
use mathlib.Core.Path.{subst}
use huc.Hucdev.{HucState, Effect}
use huc.Hucdev.Cpus.{CpuTable}
use huc.Hucdev.Cpus.Laws.{Vcpus}
use huc.Hucdev.Mmio.Affinity.{mask_after, mask_after-append, Distinct, Host}
use huc.Bpf.{BpfArray, bpf_prog1}
use huc.Bpf.Log.{IsLog, bpf_prog1-IsLog, bpf_prog1_full}
use huc.Daemon.Poll.{poll}
use huc.Daemon.Poll.Drain.{log_all, poll_drains, poll_idle}
use huc.Pipeline.Affinity.{forward, asked, first_with, log_delivered}

module _ (b : BpfArray) where
  open b use {Map}

  log_all-full : (m : Map) (ms xs : List ℕ) → IsLog b m ms → length ms ≡ 63 → log_all b m xs ≡ m
  log_all-full m ms [] q full = refl
  log_all-full m ms (x ∷ xs) q full =
      ap (λ t. log_all b t xs) (bpf_prog1_full b m ms x q full) ∙ log_all-full m ms xs q full

  take-front : (xs ys : List ℕ) (k : ℕ) → length xs ≡ k → take k (xs ++ ys) ≡ xs
  take-front [] ys zero e = refl
  take-front [] ys (suc k) e = absurd (omega arith)
  take-front (x ∷ xs) ys zero e = absurd (omega arith)
  take-front (x ∷ xs) ys (suc k) e = ap (λ t. x ∷ t) (take-front xs ys k (omega arith))

  -- The log keeps the first 63 calls.
  log_all-front :
      (m : Map) (ms xs : List ℕ) → IsLog b m ms → IsLog b (log_all b m xs) (take 63 (ms ++ xs))
  log_all-front m ms [] q =
      subst (IsLog b m)
        (sym
          (take_of_le 63 (ms ++ []) (omega (arith, q.fits, length-append ms [])) ∙ append-nil ms))
        q
  log_all-front m ms (x ∷ xs) q = elim (dec_lt (length ms) 63) [
    | yes room ↦
        subst (λ t. IsLog b (log_all b (bpf_prog1 b m x) xs) (take 63 t))
          (append_assoc ms (x ∷ []) xs)
          (log_all-front (bpf_prog1 b m x) (ms ++ x ∷ []) xs (bpf_prog1-IsLog b m ms x q room))
    | no full ↦
        let e : length ms ≡ 63 = omega (arith, q.fits, full) in
        subst (λ t. IsLog b t (take 63 (ms ++ x ∷ xs))) (sym (log_all-full m ms (x ∷ xs) q e))
          (subst (IsLog b m) (sym (take-front ms (x ∷ xs) 63 e)) q)
  ]

  -- The rounds of the loop, each behind the calls that the guest makes before it: the map and `value`,
  -- the device, and what it asks of the host.
  unfoldable pub poll_rounds :
      CpuTable → ℕ → HucState → ℕ → Map → List (List ℕ) → Option (HucState × ℕ × Map × List Effect)
  poll_rounds get_cpu fuel dev value m [] = some (dev, value, m, [])
  poll_rounds get_cpu fuel dev value m (calls ∷ batches) =
      let (sent, value', m') = poll b value (log_all b m calls) in
      elim (forward get_cpu fuel dev sent) [
        | none ↦ none
        | some (dev', out) ↦ elim (poll_rounds get_cpu fuel dev' value' m' batches) [
          | none ↦ none
          | some (dev'', value'', m'', rest) ↦ some (dev'', value'', m'', out ++ rest)
        ]
      ]

module _ (host : Host) (t j : ℕ) where
  -- The mask of vCPU `j`, with the thread `t`, after a round behind the calls `xs`.
  abbrev pub settled : ℕ → List ℕ → ℕ
  settled before [] = before
  settled before (x ∷ xs) =
      let log = take 63 (x ∷ xs) in first_with host t j log (asked host t j (length log) before)

  abbrev pub settled_all : ℕ → List (List ℕ) → ℕ
  settled_all before [] = before
  settled_all before (calls ∷ batches) = settled_all (settled before calls) batches

module _ {get_cpu : CpuTable} {n : ℕ} {thread : ℕ → ℕ} (v : Vcpus get_cpu n thread) (fuel : ℕ)
    (enough : n < fuel) (distinct : Distinct n thread) (host : Host) (b : BpfArray) where
  -- One round.
  round_settles :
      (dev : HucState) (value : ℕ) (m : BpfArray.Map b) (calls : List ℕ) (j before : ℕ)
      → IsLog b m []
      → j < n
      → (out : List Effect) × (forward get_cpu fuel dev (poll b value (log_all b m calls)).0
          ≡ some (dev, out))
        × (mask_after host (thread j) before out ≡ settled host (thread j) j before calls)
        × IsLog b (poll b value (log_all b m calls)).2 []
  unfolding forward
  round_settles dev value m [] j before q lt =
      let idle = poll_idle b value m q in
      (
        [],
        ap (λ (r : List ℕ × ℕ × BpfArray.Map b). forward get_cpu fuel dev r.0) idle,
        refl,
        subst (λ (r : List ℕ × ℕ × BpfArray.Map b). IsLog b r.2 []) (sym idle) q,
      )
  round_settles dev value m (x ∷ xs) j before q lt =
      let log = log_all-front b m [] (x ∷ xs) q in
      let (out, e, gets) =
        log_delivered v fuel enough distinct host b value (log_all b m (x ∷ xs)) (take 63 (x ∷ xs))
          dev j before log (omega arith) lt in
      let (_, _, empty) =
        poll_drains b value (log_all b m (x ∷ xs)) (take 63 (x ∷ xs)) log (omega arith) in
      (out, e, gets, empty)

  -- Any number of rounds, with any number of calls before each, on an empty log and with distinct
  -- threads: all ioctls return, the device's state is as before, and the log is empty again. Each round
  -- settles a vCPU's mask: of the first 63 calls before it, the thread gets what the host grants of the
  -- earliest, cut to 32 bits, that has the vCPU and that the host does not refuse; if there is none,
  -- likewise of their number as a mask; and without a call nothing changes.
  pub poll_rounds-settled_all :
      (dev : HucState) (value : ℕ) (m : BpfArray.Map b) (batches : List (List ℕ)) (j before : ℕ)
      → IsLog b m []
      → j < n
      → (value' : ℕ) × (m' : BpfArray.Map b) × (out : List Effect) × (poll_rounds b get_cpu fuel dev
            value m batches
          ≡ some (dev, value', m', out))
        × (mask_after host (thread j) before out ≡ settled_all host (thread j) j before batches)
        × IsLog b m' []
  unfolding poll_rounds
  poll_rounds-settled_all dev value m [] j before q lt = (value, m, [], refl, refl, q)
  poll_rounds-settled_all dev value m (calls ∷ batches) j before q lt =
      let (out, e, gets, empty) = round_settles dev value m calls j before q lt in
      let (_, value1, m1) = poll b value (log_all b m calls) in
      let (value', m', rest, e', gets', empty') =
        poll_rounds-settled_all dev value1 m1 batches j (settled host (thread j) j before calls)
          empty lt in
      (
        value',
        m',
        out ++ rest,
        ground (arith, e, e'),
        mask_after-append host (thread j) before out rest
            ∙ ap (λ k. mask_after host (thread j) k rest) gets
            ∙ gets',
        empty',
      )
