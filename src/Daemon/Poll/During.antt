-- ===== src/Daemon/Poll/During.antt =====
-- A round of the polling loop while the guest goes on: calls of the traced function between the accesses
-- of the daemon.
use huc.Base.{
  ℕ, zero, suc, ◌<◌, ◌≡◌, ◌≢◌, refl, ap, ◌∙◌, true, false, List, [], ◌∷◌, ◌==◌, if◌then◌else◌,
  arith, ℕ_discrete,
}
use huc.Bpf.{BpfArray, max_entries}
use huc.Daemon.Poll.{lookup_into, scan, poll}
use huc.Daemon.Poll.Drain.{log_all}

module _ (b : BpfArray) where
  open b use {Map, lookup, update, lookup-update, lookup_out, update_out}

  -- The scan, with the masks `calls i` logged before it looks key `i` up, and `calls 0` behind it. A call
  -- runs as a whole.
  unfoldable pub scan_during : (ℕ → List ℕ) → ℕ → ℕ → Map → List ℕ × ℕ × Map
  scan_during calls zero value m = ([], value, log_all b m (calls 0))
  scan_during calls (suc i) value m =
      let now = log_all b m (calls (suc i)) in
      let mask = lookup_into b now (suc i) value in
      elim (mask == 0) [
        | true ↦ scan_during calls i mask now
        | false ↦
            let (sent, value', m') = scan_during calls i 0 (update now (suc i) 0) in
            (mask ∷ sent, value', m')
      ]

  -- A round of the loop with such a scan.
  unfoldable pub poll_during : (ℕ → List ℕ) → ℕ → Map → List ℕ × ℕ × Map
  poll_during calls value m =
      let count = lookup_into b m 0 value in
      if count == 0
      then ([], count, m)
      else let (sent, value', m') = scan_during calls max_entries count m in
        (sent, value', update m' 0 value')

  -- A key with a mask, and no call before its lookup.
  pub scan_during_mask :
      (calls : ℕ → List ℕ) (i v x : ℕ) (m : Map)
      → calls (suc i) ≡ []
      → lookup_into b m (suc i) v ≡ x
      → x ≢ 0
      → let (sent, value, m') = scan_during calls i 0 (update m (suc i) 0) in
        scan_during calls (suc i) v m ≡ (x ∷ sent, value, m')
  unfolding scan_during
  scan_during_mask calls i v x m quiet e ne = ground (arith, quiet, e, ne)

  -- Without further calls behind those at `p` the scan is the one alone.
  pub scan_during_quiet :
      (calls : ℕ → List ℕ) (p v : ℕ) (m : Map)
      → ((j : ℕ) → j < p → calls j ≡ [])
      → scan_during calls p v m ≡ scan b p v (log_all b m (calls p))
  unfolding scan_during scan
  scan_during_quiet calls zero v m quiet = refl
  scan_during_quiet calls (suc p) v m quiet =
      let now = log_all b m (calls (suc p)) in
      let mask = lookup_into b now (suc p) v in
      let rest : (v' : ℕ) (t : Map) → scan_during calls p v' t ≡ scan b p v' t = λ v' t.
        scan_during_quiet calls p v' t (λ j lt. quiet j (omega arith))
        ∙ ap (λ xs. scan b p v' (log_all b t xs)) (quiet p (omega arith)) in
      elim (ℕ_discrete mask 0) [
        | yes z ↦ ground (arith, z, rest mask now)
        | no ne ↦ ground (arith, ne, rest 0 (update now (suc p) 0))
      ]

  -- With no calls at all, a round is the one alone.
  poll_during-poll : (v : ℕ) (m : Map) → poll_during (λ i. []) v m ≡ poll b v m
  unfolding poll_during poll
  poll_during-poll v m =
      let count = lookup_into b m 0 v in
      ap
        (λ (r : List ℕ × ℕ × Map).
          if count == 0 then ([], count, m) else (r.0, r.1, update r.2 0 r.1))
        (scan_during_quiet (λ i. []) max_entries count m (λ j lt. refl))
