-- ===== src/Daemon/Poll/Missed.antt =====
-- A call of the traced function while the daemon scans the log.
use huc.Base.{
  ℕ, zero, suc, ◌+◌, ◌≤◌, ◌<◌, ◌≡◌, ◌≢◌, refl, ap, ◌∙◌, sym, some, List, [], ◌∷◌, ◌==◌,
  if◌then◌else◌, arith, length, get_or, inl, inr, ℕ_discrete,
}
use mathlib.Core.Path.{subst}
use mathlib.Core.Option
use huc.Bpf.{BpfArray, max_entries, bpf_prog1}
use huc.Bpf.Log.{lookup_appended}
use huc.Daemon.Poll.{scan}
use huc.Daemon.Poll.Scan.{nonzero, newest_first, Holds, Scanned, scan-Scanned}
use huc.Daemon.Poll.Drain.{log_all}
use huc.Daemon.Poll.During.{scan_during, scan_during_quiet, scan_during_mask}

-- One call with the mask `x` before the lookup of key `p`.
abbrev pub call_at : ℕ → ℕ → ℕ → List ℕ
call_at p x i = if i == p then x ∷ [] else []

module _ (b : BpfArray) (ms : List ℕ) (x p : ℕ) (room : length ms < 63)
    (passed : p ≤ length ms) where
  open b use {Map, lookup, update, lookup-update, lookup_out, update_out}

  -- What the scan leaves from `i` down: the masks of `ms` are forwarded and cleared, and `x` stands behind
  -- them.
  pub record Left (m : Map) (i : ℕ) (out : List ℕ × ℕ × Map) : Type 0 where
    pub sent : out.0 ≡ nonzero (newest_first ms i)
    pub value : out.1 ≡ 0
    pub counter : lookup out.2 0 ≡ some (length ms + 1)
    pub late : lookup out.2 (length ms + 1) ≡ some x
    pub cleared : (j : ℕ) → j < i → j ≢ length ms → lookup out.2 (suc j) ≡ some 0
    pub kept : (k : ℕ) → i < k → k ≢ length ms + 1 → lookup out.2 k ≡ lookup m k

  module _ (m : Map) (counted : lookup m 0 ≡ some (length ms)) where
    bpf_prog1-counted : bpf_prog1 b m x ≡ update (update m 0 (length ms + 1)) (length ms + 1) x
    unfolding bpf_prog1
    bpf_prog1-counted = ground (arith, counted)

    now :
        (j : ℕ)
        → lookup (bpf_prog1 b m x) j ≡ (
            if length ms + 1 == j
            then some x
            else if 0 == j
            then some (length ms + 1)
            else lookup m j)
    now j = ap (λ t. lookup t j) bpf_prog1-counted ∙ lookup_appended b m (length ms) x j room

    -- From the call on.
    call-Left : Holds b m p ms → Left m p (scan_during b (call_at p x) p 0 m)
    call-Left h =
        let m' = bpf_prog1 b m x in
        let same : scan_during b (call_at p x) p 0 m ≡ scan b p 0 m' =
          scan_during_quiet b (call_at p x) p 0 m (λ j lt. ground arith)
          ∙ ap (λ xs. scan b p 0 (log_all b m xs)) {x = call_at p x p} {y = x ∷ []}
              (ground arith) in
        let done : Scanned b m' p ms (scan b p 0 m') =
          scan-Scanned b p m' ms (omega arith) (λ j lt. ground (arith, now (suc j), h j lt)) in
        subst (Left m p) (sym same) (record {
          sent = done.sent;
          value = done.value;
          counter = done.kept 0 (inl refl) ∙ ground (arith, now 0);
          late =
              done.kept (length ms + 1) (inr (omega arith)) ∙ ground (arith, now (length ms + 1));
          cleared = λ j lt ne. done.cleared j lt;
          kept = λ k lt ne. done.kept k (inr lt) ∙ ground (arith, now k);
        })

  -- A key above it, zero or forwarded and cleared.
  step_zero :
      (i : ℕ) (m : Map)
      → p ≤ i
      → lookup m (suc i) ≡ some 0
      → scan_during b (call_at p x) (suc i) 0 m ≡ scan_during b (call_at p x) i 0 m
  unfolding scan_during
  step_zero i m le e = ground (arith, e)

  Left-zero :
      (i : ℕ) (m : Map) {out : List ℕ × ℕ × Map}
      → get_or ms i 0 ≡ 0
      → lookup m (suc i) ≡ some 0
      → Left m i out
      → Left m (suc i) out
  unfolding nonzero
  Left-zero i m z here q = record {
    sent = ground (arith, q.sent, z);
    value = q.value;
    counter = q.counter;
    late = q.late;
    cleared = λ j lt ne. ground (arith, q.cleared j, q.kept (suc i) (omega arith), here);
    kept = λ k lt ne. q.kept k (omega arith) ne;
  }

  Left-mask :
      (i : ℕ) (m : Map) (out : List ℕ × ℕ × Map)
      → suc i < max_entries
      → get_or ms i 0 ≢ 0
      → Left (update m (suc i) 0) i out
      → Left m (suc i) (get_or ms i 0 ∷ out.0, out.1, out.2)
  unfolding nonzero
  Left-mask i m out lt ne q = record {
    sent = ground (arith, q.sent, ne);
    value = q.value;
    counter = q.counter;
    late = q.late;
    cleared = λ j lt' other.
        ground
          (arith, q.cleared j, q.kept (suc i) (omega arith), lookup-update m (suc i) 0 (suc i) lt);
    kept = λ k lt' other.
        q.kept k (omega arith) other ∙ ground (arith, lookup-update m (suc i) 0 k lt);
  }

  pub scan-Left :
      (i : ℕ) (m : Map)
      → p ≤ i
      → i < max_entries
      → lookup m 0 ≡ some (length ms)
      → Holds b m i ms
      → Left m i (scan_during b (call_at p x) i 0 m)
  scan-Left zero m le lt counted h =
      subst (λ i. Left m i (scan_during b (call_at p x) i 0 m)) {x = p} {y = 0} (omega arith)
        (call-Left m counted (λ j l. h j (omega arith)))
  scan-Left (suc i) m le lt counted h = elim (ℕ_discrete p (suc i)) [
    | yes e ↦
        subst (λ i. Left m i (scan_during b (call_at p x) i 0 m)) e
          (call-Left m counted (λ j l. h j (omega arith)))
    | no above ↦ elim (ℕ_discrete (get_or ms i 0) 0) [
      | yes z ↦
          let here : lookup m (suc i) ≡ some 0 = h i (omega arith) ∙ ap some z in
          subst (Left m (suc i)) (sym (step_zero i m (omega arith) here)) (
            Left-zero i m z here
              (scan-Left i m (omega arith) (omega arith) counted (λ j l. h j (omega arith))))
      | no ne ↦
          subst (Left m (suc i))
            (sym (
              scan_during_mask b (call_at p x) i 0 (get_or ms i 0) m (ground arith)
                (ap (λ o. Option.get_or o 0) (h i (omega arith))) ne))
            (Left-mask i m _ lt ne (
              scan-Left i (update m (suc i) 0) (omega arith) (omega arith)
                (lookup-update m (suc i) 0 0 lt ∙ ground (arith, counted))
                (λ j l. lookup-update m (suc i) 0 (suc j) lt ∙ ground (arith, h j (omega arith)))))
    ]
  ]
