-- ===== src/Daemon/Poll/Scan.antt =====
-- The scan forwards the entries that are not zero, from the highest key down, and clears them.
use huc.Base.{
  ℕ, zero, suc, ◌<◌, ◌≡◌, ◌≢◌, refl, ap, ◌∙◌, sym, some, List, [], ◌∷◌, arith, ◌==◌, if◌then◌else◌,
  get_or, ◌⊎◌, inr, ℕ_discrete,
}
use mathlib.Core.Path.{subst}
use mathlib.Core.Option
use huc.Bpf.{BpfArray, max_entries}
use huc.Daemon.Poll.{lookup_into, scan}

-- The masks that are not zero.
unfoldable pub nonzero : List ℕ → List ℕ
nonzero [] = []
nonzero (x ∷ xs) = if x == 0 then nonzero xs else x ∷ nonzero xs

-- The first `i` masks of a log, newest first, with zeros where the log has ended.
abbrev pub newest_first : List ℕ → ℕ → List ℕ
newest_first ms zero = []
newest_first ms (suc i) = get_or ms i 0 ∷ newest_first ms i

module _ (b : BpfArray) where
  open b use {Map, lookup, update, lookup-update, lookup_out, update_out}

  -- The entries 1 to `i` are the first masks of `ms`.
  abbrev pub Holds : Map → ℕ → List ℕ → Type 0
  Holds m i ms = (j : ℕ) → j < i → lookup m (suc j) ≡ some (get_or ms j 0)

  -- What a scan from `i` leaves: the entries 1 to `i` are cleared, the others kept.
  pub record Scanned (m : Map) (i : ℕ) (ms : List ℕ) (out : List ℕ × ℕ × Map) : Type 0 where
    pub sent : out.0 ≡ nonzero (newest_first ms i)
    pub value : out.1 ≡ 0
    pub cleared : (j : ℕ) → j < i → lookup out.2 (suc j) ≡ some 0
    pub kept : (k : ℕ) → (k ≡ 0) ⊎ (i < k) → lookup out.2 k ≡ lookup m k

  scan_zero :
      (i : ℕ) (m : Map) (v : ℕ) → lookup m (suc i) ≡ some 0 → scan b (suc i) v m ≡ scan b i 0 m
  unfolding scan
  scan_zero i m v e = ground (arith, e)

  pub scan_mask :
      (i : ℕ) (m : Map) (v x : ℕ)
      → lookup_into b m (suc i) v ≡ x
      → x ≢ 0
      → let (sent, value, m') = scan b i 0 (update m (suc i) 0) in
        scan b (suc i) v m ≡ (x ∷ sent, value, m')
  unfolding scan
  scan_mask i m v x e ne = ground (arith, e)

  -- One entry further up, zero or forwarded and cleared.
  Scanned-zero :
      (i : ℕ) (m : Map) (ms : List ℕ) {out : List ℕ × ℕ × Map}
      → get_or ms i 0 ≡ 0
      → lookup m (suc i) ≡ some 0
      → Scanned m i ms out
      → Scanned m (suc i) ms out
  unfolding nonzero
  Scanned-zero i m ms z e q = record {
    sent = ground (arith, q.sent);
    value = q.value;
    cleared = λ j lt. ground (arith, q.cleared j, q.kept (suc i) (inr (omega arith)));
    kept = λ k h. ground (arith, q.kept k);
  }

  Scanned-mask :
      (i : ℕ) (m : Map) (ms : List ℕ) (out : List ℕ × ℕ × Map)
      → suc i < max_entries
      → get_or ms i 0 ≢ 0
      → Scanned (update m (suc i) 0) i ms out
      → Scanned m (suc i) ms (get_or ms i 0 ∷ out.0, out.1, out.2)
  unfolding nonzero
  Scanned-mask i m ms out lt ne q = record {
    sent = ground (arith, q.sent);
    value = q.value;
    cleared = λ j lt'. ground (
      arith,
      q.cleared j,
      q.kept (suc i) (inr (omega arith)),
      lookup-update m (suc i) 0 (suc i) lt,
    );
    kept = λ k h. ground (arith, q.kept k, lookup-update m (suc i) 0 k lt);
  }

  pub scan-Scanned :
      (i : ℕ) (m : Map) (ms : List ℕ)
      → i < max_entries
      → Holds m i ms
      → Scanned m i ms (scan b i 0 m)
  unfolding scan nonzero
  scan-Scanned zero m ms lt h = record {
    sent = refl;
    value = refl;
    cleared = λ j l. absurd (omega arith);
    kept = λ k l. refl;
  }
  scan-Scanned (suc i) m ms lt h = elim (ℕ_discrete (get_or ms i 0) 0) [
    | yes z ↦
        let here : lookup m (suc i) ≡ some 0 = h i (omega arith) ∙ ap some z in
        subst (Scanned m (suc i) ms) (sym (scan_zero i m 0 here)) (
          Scanned-zero i m ms z here (scan-Scanned i m ms (omega arith) (λ j l. h j (omega arith))))
    | no ne ↦
        subst (Scanned m (suc i) ms)
          (sym
            (scan_mask i m 0 (get_or ms i 0) (ap (λ o. Option.get_or o 0) (h i (omega arith))) ne))
          (Scanned-mask i m ms _ lt ne (
            scan-Scanned i (update m (suc i) 0) ms (omega arith)
              (λ j l. lookup-update m (suc i) 0 (suc j) lt ∙ ground (arith, h j (omega arith)))))
  ]
