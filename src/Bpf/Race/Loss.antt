-- ===== src/Bpf/Race/Loss.antt =====
-- What goes wrong when calls of the program overlap, with each other or with the daemon's reset.
use huc.Base.{ℕ, ◌+◌, ◌≤◌, ◌≡◌, ◌≢◌, ap, ◌∙◌, some, u32, u64, arith}
use huc.Bpf.{BpfArray, bpf_prog1}
use huc.Bpf.Race.{
  idle, added, indexed, Cpus, Step, enter, check, add, read_index, store, Reach, here, next,
  cleared,
}

module _ (b : BpfArray) where
  open b use {Map, lookup, update, lookup-update, update_out}

  -- Two CPUs pass the test for 63 one after the other, then both add.
  record BothAdded (s : Cpus b) (i j x y c : ℕ) (t : Cpus b) : Type 0 where
    run : Reach b s t
    first : t.locals i ≡ added x
    second : t.locals j ≡ added y
    count : lookup t.map 0 ≡ some (c + 2)
    others : (k : ℕ) → k ≢ 0 → lookup t.map k ≡ lookup s.map k

  both_add :
      (s : Cpus b) (i j x y c : ℕ)
      → i ≢ j
      → s.locals i ≡ idle
      → s.locals j ≡ idle
      → lookup s.map 0 ≡ some c
      → c ≤ 62
      → (t : Cpus b) × BothAdded s i j x y c t
  both_add s i j x y c ne at_i at_j e le =
      let m1 = update s.map 0 (u64 (c + 1)) in
      let e1 : lookup m1 0 ≡ some (u64 (c + 1)) =
        lookup-update s.map 0 (u64 (c + 1)) 0 (omega arith) in
      let e2 : lookup (update m1 0 (u64 (u64 (c + 1) + 1))) 0 ≡ some (u64 (u64 (c + 1) + 1)) =
        lookup-update m1 0 (u64 (u64 (c + 1) + 1)) 0 (omega arith) in
      (
        _,
        record {
          run =
              next
                (next
                  (next
                    (next
                      (next (next here (enter i x at_i))
                        (check i x c (ground arith) e (omega arith)))
                      (enter j y (ground arith)))
                    (check j y c (ground arith) e (omega arith)))
                  (add i x c (ground arith) e))
                (add j y (u64 (c + 1)) (ground arith) e1);
          first = ground arith;
          second = ground arith;
          count = e2 ∙ ap some (omega arith);
          others = λ k away. ground (
            arith,
            lookup-update s.map 0 (u64 (c + 1)) k (omega arith),
            lookup-update m1 0 (u64 (u64 (c + 1) + 1)) k (omega arith),
          );
        },
      )

  -- Two calls that overlap over a log of 62 masks can both pass the test for 63. Then the counter is 64
  -- and the test stops no call any more: a later call with any mask `z` counts on to 65 and stores
  -- nothing.
  pub overlap_passes_guard :
      (s : Cpus b) (i j x y z : ℕ)
      → i ≢ j
      → s.locals i ≡ idle
      → s.locals j ≡ idle
      → lookup s.map 0 ≡ some 62
      → (t : Cpus b) × Reach b s t
        × (lookup t.map 0 ≡ some 64)
        × (bpf_prog1 b t.map z ≡ update t.map 0 65)
  unfolding bpf_prog1
  overlap_passes_guard s i j x y z ne at_i at_j e =
      let (t, a) = both_add s i j x y 62 ne at_i at_j e (omega arith) in
      (
        t,
        a.run,
        a.count,
        ground (arith, a.count, update_out (update t.map 0 65) 65 z (omega arith)),
      )

  -- There is a run in which the daemon resets the counter between the addition of a call and its read of
  -- the index, and the same CPU then goes on alone: it reads the index 0, and stores its mask in the
  -- counter itself.
  pub reset_stores_mask_in_counter :
      (s : Cpus b) (i x c : ℕ)
      → s.locals i ≡ idle
      → lookup s.map 0 ≡ some c
      → c ≢ 63
      → (u v t : Cpus b) × Reach b s u
        × (u.locals i ≡ added x)
        × Step b (cleared b u) v
        × (v.locals i ≡ indexed x 0)
        × Step b v t
        × (lookup t.map 0 ≡ some x)
        × (t.locals i ≡ idle)
  reset_stores_mask_in_counter s i x c at e ne =
      let m1 = update s.map 0 (u64 (c + 1)) in
      let zero_there : lookup (update m1 0 0) 0 ≡ some 0 = lookup-update m1 0 0 0 (omega arith) in
      (
        _,
        _,
        _,
        next (next (next here (enter i x at)) (check i x c (ground arith) e ne))
            (add i x c (ground arith) e),
        ground arith,
        read_index i x 0 (ground arith) zero_there,
        ground arith,
        store i x (u32 0) (ground arith),
        lookup-update (update m1 0 0) 0 x 0 (omega arith),
        ground arith,
      )
