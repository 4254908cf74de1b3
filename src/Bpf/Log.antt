-- ===== src/Bpf/Log.antt =====
-- The map as a log: the counter, the masks in order behind it, zeros behind them.
use huc.Base.{
  ℕ, suc, ◌+◌, ◌<◌, ◌≡◌, ap, ◌∙◌, some, List, [], ◌∷◌, ◌++◌, arith, ◌==◌, if◌then◌else◌, length,
  get_or, get_or-append, length-append,
}
use huc.Bpf.{BpfArray, max_entries, bpf_prog1}

module _ (b : BpfArray) where
  open b use {Map, lookup, update, lookup-update}

  -- The map holds the masks `ms`, oldest first.
  pub record IsLog (m : Map) (ms : List ℕ) : Type 0 where
    pub fits : length ms < max_entries
    pub counter : lookup m 0 ≡ some (length ms)
    pub masks : (i : ℕ) → suc i < max_entries → lookup m (suc i) ≡ some (get_or ms i 0)

  appended :
      (m : Map) (ms : List ℕ) (x : ℕ)
      → IsLog m ms
      → length ms < 63
      → bpf_prog1 b m x ≡ update (update m 0 (length ms + 1)) (length ms + 1) x
  unfolding bpf_prog1
  appended m ms x q room = ground (arith, q.counter)

  -- What is found after the two updates.
  pub lookup_appended :
      (m : Map) (n x j : ℕ)
      → n < 63
      → lookup (update (update m 0 (n + 1)) (n + 1) x) j
        ≡ (if n + 1 == j then some x else if 0 == j then some (n + 1) else lookup m j)
  lookup_appended m n x j lt =
      lookup-update (update m 0 (n + 1)) (n + 1) x j (omega arith)
      ∙ ground (arith, lookup-update m 0 (n + 1) j (omega arith))

  -- A traced call is appended to the log as long as fewer than 63 are in it.
  pub bpf_prog1-IsLog :
      (m : Map) (ms : List ℕ) (x : ℕ)
      → IsLog m ms
      → length ms < 63
      → IsLog (bpf_prog1 b m x) (ms ++ x ∷ [])
  bpf_prog1-IsLog m ms x q room = record {
    fits = omega (arith, length-append ms (x ∷ []));
    counter =
        ap (λ t. lookup t 0) (appended m ms x q room)
        ∙ lookup_appended m (length ms) x 0 room
        ∙ ground (arith, length-append ms (x ∷ []));
    masks = λ i lt.
        ap (λ t. lookup t (suc i)) (appended m ms x q room)
        ∙ lookup_appended m (length ms) x (suc i) room
        ∙ ground (arith, q.masks i lt, get_or-append ms x 0 i);
  }

  -- A full log ignores further calls.
  pub bpf_prog1_full :
      (m : Map) (ms : List ℕ) (x : ℕ) → IsLog m ms → length ms ≡ 63 → bpf_prog1 b m x ≡ m
  unfolding bpf_prog1
  bpf_prog1_full m ms x q full = ground (arith, q.counter)
