-- ===== src/Daemon/Poll/Stale.antt =====
-- What becomes of a call that came during the scan.
use huc.Base.{
  ℕ, zero, suc, ◌+◌, ◌-◌, ◌≤◌, ◌<◌, ◌≡◌, ◌≢◌, refl, ap, ◌∙◌, sym, some, List, [], ◌∷◌, ◌++◌, ◌==◌,
  if◌then◌else◌, arith, length, get_or, ℕ_discrete,
}
use mathlib.Core.Path.{subst}
use mathlib.Core.List.{reverse, reverse-append}
use huc.Bpf.{BpfArray, bpf_prog1}
use huc.Bpf.Log.{IsLog, lookup_appended}
use huc.Daemon.Poll.{poll}
use huc.Daemon.Poll.Scan.{nonzero, newest_first, Holds, scan-Scanned}
use huc.Daemon.Poll.Drain.{nonzero_past, newest_first-reverse, poll-scan}
use huc.Daemon.Poll.During.{scan_during, poll_during, scan_during_mask}
use huc.Daemon.Poll.Missed.{call_at, scan-Left}

-- A mask, and another one behind `k` zeros.
abbrev apart : ℕ → ℕ → List ℕ
apart x zero = x ∷ []
apart x (suc k) = 0 ∷ apart x k

length-apart : (x k : ℕ) → length (apart x k) ≡ k + 1
length-apart x zero = refl
length-apart x (suc k) = omega (arith, length-apart x k)

get_or-apart : (x k i : ℕ) → get_or (apart x k) i 0 ≡ (if i == k then x else 0)
get_or-apart x zero zero = refl
get_or-apart x zero (suc i) = ground arith
get_or-apart x (suc k) zero = ground arith
get_or-apart x (suc k) (suc i) = ground (arith, get_or-apart x k i)

nonzero-append : (xs ys : List ℕ) → nonzero (xs ++ ys) ≡ nonzero xs ++ nonzero ys
unfolding nonzero
nonzero-append [] ys = refl
nonzero-append (x ∷ xs) ys = ground (arith, nonzero-append xs ys)

nonzero-apart : (x k : ℕ) → x ≢ 0 → nonzero (reverse (apart x k)) ≡ x ∷ []
unfolding nonzero
nonzero-apart x zero ne = ground (arith, ne)
nonzero-apart x (suc k) ne =
    ap nonzero (reverse-append (0 ∷ []) (apart x k))
    ∙ nonzero-append (reverse (apart x k)) (0 ∷ [])
    ∙ ap (λ t. t ++ []) (nonzero-apart x k ne)

module _ (b : BpfArray) where
  open b use {Map, lookup, update, lookup-update, lookup_out, update_out}

  -- The log is empty by its counter, but `x` stands at the key `n + 1`.
  pub record Stale (m : Map) (n x : ℕ) : Type 0 where
    pub counter : lookup m 0 ≡ some 0
    pub late : lookup m (n + 1) ≡ some x
    pub others : (j : ℕ) → j < 63 → j ≢ n → lookup m (suc j) ≡ some 0

  -- As long as no call comes, a round forwards nothing and changes nothing.
  poll_stale : (v : ℕ) (m : Map) → lookup m 0 ≡ some 0 → poll b v m ≡ ([], 0, m)
  unfolding poll
  poll_stale v m e = ground (arith, e)

  get_or-late :
      (m : Map) (n x y j : ℕ)
      → Stale m n x
      → 0 < n
      → j < 63
      → (if 0 + 1 == suc j then some y else if 0 == suc j then some (0 + 1) else lookup m (suc j))
        ≡ some (get_or (y ∷ apart x (n - 1)) j 0)
  get_or-late m n x y zero q pos lt = ground arith
  get_or-late m n x y (suc i) q pos lt = elim (ℕ_discrete (suc i) n) [
    | yes e ↦
        let found : lookup m (suc (suc i)) ≡ some x =
          ap (lookup m) {x = suc (suc i)} {y = n + 1} (omega arith) ∙ q.late in
        ground (arith, found, get_or-apart x (n - 1) i, e)
    | no ne ↦ ground (arith, q.others (suc i) lt ne, get_or-apart x (n - 1) i)
  ]

  next_logged :
      (m : Map) (n x y : ℕ)
      → Stale m n x
      → 0 < n
      → (lookup (bpf_prog1 b m y) 0 ≡ some 1) × Holds b (bpf_prog1 b m y) 63 (y ∷ apart x (n - 1))
  unfolding bpf_prog1
  next_logged m n x y q pos =
      let same : bpf_prog1 b m y ≡ update (update m 0 (0 + 1)) (0 + 1) y =
        ground (arith, q.counter) in
      (
        ap (λ t. lookup t 0) same ∙ lookup_appended b m 0 y 0 (omega arith) ∙ ground arith,
        λ j l.
            ap (λ t. lookup t (suc j)) same
            ∙ lookup_appended b m 0 y (suc j) (omega arith)
            ∙ get_or-late m n x y j q pos l,
      )

  -- The next call lets it go: the round behind that call forwards both.
  poll_next :
      (v : ℕ) (m : Map) (n x y : ℕ)
      → Stale m n x
      → 0 < n
      → n < 63
      → x ≢ 0
      → y ≢ 0
      → (poll b v (bpf_prog1 b m y)).0 ≡ 1 ∷ x ∷ y ∷ []
  unfolding nonzero
  poll_next v m n x y q pos lt some_x some_y =
      let (counter, holds) = next_logged m n x y q pos in
      let done = scan-Scanned b 63 (bpf_prog1 b m y) (y ∷ apart x (n - 1)) (omega arith) holds in
      let len : length (y ∷ apart x (n - 1)) ≡ n + 1 = omega (arith, length-apart x (n - 1)) in
      ap (λ (r : List ℕ × ℕ × Map). r.0) (poll-scan b v 1 (bpf_prog1 b m y) counter (omega arith))
      ∙ ap (λ t. 1 ∷ t)
          (done.sent
            ∙ ap (λ i. nonzero (newest_first (y ∷ apart x (n - 1)) i)) {x = 63}
                {y = 63 - (n + 1) + length (y ∷ apart x (n - 1))} (omega (arith, len))
            ∙ nonzero_past (y ∷ apart x (n - 1)) (63 - (n + 1))
            ∙ ap nonzero (newest_first-reverse (y ∷ apart x (n - 1)))
            ∙ ap nonzero (reverse-append (y ∷ []) (apart x (n - 1)))
            ∙ nonzero-append (reverse (apart x (n - 1))) (y ∷ [])
            ∙ ap (λ t. t ++ nonzero (y ∷ [])) (nonzero-apart x (n - 1) some_x)
            ∙ ground (arith, some_y))

  -- The failed lookup of key 64.
  spurious :
      (calls : ℕ → List ℕ) (c : ℕ) (m : Map)
      → 0 < c
      → calls 64 ≡ []
      → let (sent, value, m') = scan_during b calls 63 0 m in
        scan_during b calls 64 c m ≡ (c ∷ sent, value, m')
  spurious calls c m pos quiet =
      scan_during_mask b calls 63 c c m quiet (ground (arith, lookup_out m 64 (omega arith)))
        (omega arith)
      ∙ ap (λ t. let (sent, value, m') = scan_during b calls 63 0 t in (c ∷ sent, value, m'))
          (update_out m 64 0 (omega arith))

  poll_during-scan :
      (calls : ℕ → List ℕ) (v c : ℕ) (m : Map)
      → lookup m 0 ≡ some c
      → 0 < c
      → calls 64 ≡ []
      → let (sent, value, m') = scan_during b calls 63 0 m in
        poll_during b calls v m ≡ (c ∷ sent, value, update m' 0 value)
  unfolding poll_during
  poll_during-scan calls v c m counter pos quiet =
      ground (arith, counter, spurious calls c m pos quiet)

  -- The round that the call came into forwards what it would without the call.
  poll_during-Stale :
      (v : ℕ) (m : Map) (ms : List ℕ) (x p : ℕ)
      → IsLog b m ms
      → 0 < length ms
      → length ms < 63
      → p ≤ length ms
      → let (sent, value, m') = poll_during b (call_at p x) v m in
        (sent ≡ length ms ∷ nonzero (reverse ms)) × (value ≡ 0) × Stale m' (length ms) x
  poll_during-Stale v m ms x p q pos room passed =
      let (sent, value, m') = scan_during b (call_at p x) 63 0 m in
      let left =
        scan-Left b ms x p room passed 63 m (omega arith) (omega arith) q.counter
          (λ j lt. q.masks j (omega arith)) in
      subst
        (λ (out : List ℕ × ℕ × Map).
          (out.0 ≡ length ms ∷ nonzero (reverse ms)) × (out.1 ≡ 0) × Stale out.2 (length ms) x)
        (sym (
          poll_during-scan (call_at p x) v (length ms) m q.counter pos
            (ground (arith, passed, room))))
        (
          ap (λ t. length ms ∷ t)
              (left.sent
                ∙ ap (λ i. nonzero (newest_first ms i)) {x = 63} {y = 63 - length ms + length ms}
                    (omega arith)
                ∙ nonzero_past ms (63 - length ms)
                ∙ ap nonzero (newest_first-reverse ms)),
          left.value,
          record {
            counter = ground (arith, left.value, lookup-update m' 0 value 0 (omega arith));
            late =
                lookup-update m' 0 value (length ms + 1) (omega arith) ∙ ground (arith, left.late);
            others = λ j lt ne.
                lookup-update m' 0 value (suc j) (omega arith)
                ∙ ground (arith, left.cleared j lt ne);
          },
        )

  -- A call that comes while a round scans. The log held 1 to 62 calls, the scan has passed the key behind
  -- them, and neither the mask of the call nor that of the next is zero: the round forwards what it
  -- would without the call, and empties the log. The rounds behind it forward nothing, however many
  -- there are, until the guest makes another call; only then are both forwarded.
  pub late_call :
      (v : ℕ) (m : Map) (ms : List ℕ) (x p y : ℕ)
      → IsLog b m ms
      → 0 < length ms
      → length ms < 63
      → p ≤ length ms
      → x ≢ 0
      → y ≢ 0
      → let (sent, _, m') = poll_during b (call_at p x) v m in
        (sent ≡ length ms ∷ nonzero (reverse ms))
        × ((w : ℕ) → poll b w m' ≡ ([], 0, m'))
        × ((w : ℕ) → (poll b w (bpf_prog1 b m' y)).0 ≡ 1 ∷ x ∷ y ∷ [])
  late_call v m ms x p y q pos room passed some_x some_y =
      let (same, _, stale) = poll_during-Stale v m ms x p q pos room passed in
      let (_, _, m') = poll_during b (call_at p x) v m in
      (
        same,
        λ w. poll_stale w m' stale.counter,
        λ w. poll_next w m' (length ms) x y stale pos room some_x some_y,
      )
