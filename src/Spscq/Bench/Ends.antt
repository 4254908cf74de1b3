-- ===== src/Spscq/Bench/Ends.antt =====
-- The benchmark comes to rest once `stop` is set.
use huc.Base.{ℕ, suc, ◌+◌, ◌≤◌, ◌≡◌, ◌≢◌, ◌⊎◌, inl, inr, refl, ap, true, arith}
use huc.Spscq.Bench.{Bench, ProducerLoop, ConsumerLoop, Step, Reach, main_start}
use huc.Spscq.Bench.Hang.{Stuck}
use huc.Spscq.Bench.Coherent.{Coherent, read_idle, Step-Coherent, Reach-Coherent}
use huc.Spscq.Bench.Stop.{
  rank, producer_rank_fits, consumer_rank_fits, Step-rank, Step-stop, Nearer, consumer_goes_on,
  producer_goes_on,
}

-- Both threads have returned, so that `main` goes on; or the consumer has, and the producer waits in
-- front of a full queue.
pub data Ended (s : Bench) : Type 0 where
  joined : s.producer ≡ ProducerLoop.returned → s.consumer ≡ ConsumerLoop.returned → Ended s
  hung : (m : ℕ) → Stuck m s → Ended s

module _ (pool pool_mask : ℕ) (smap : ℕ → ℕ) where
  -- A run of both threads in any order, with the number of its steps that changed something; the others
  -- are another round of a thread that spins, or another signal.
  pub data Run (s : Bench) : ℕ → Bench → Type 0 where
    nothing : Run s 0 s
    spin : {n : ℕ} {t u : Bench} → Run s n t → Step pool pool_mask smap t u → u ≡ t → Run s n u
    move :
        {n : ℕ} {t u : Bench} → Run s n t → Step pool pool_mask smap t u → u ≢ t → Run s (suc n) u

  goes_on : (s : Bench) → Coherent s → s.stop ≡ true → Ended s ⊎ Nearer pool pool_mask smap s
  goes_on s q off =
      elim (consumer_goes_on pool pool_mask smap s s.consumer s.sys.consumer off refl refl) [
        | inl step ↦ inr step
        | inr gone ↦
            elim (producer_goes_on pool pool_mask smap s s.producer s.sys.producer off refl refl) [
              | inl step ↦ inr step
              | inr (inl left) ↦ inl (joined left gone)
              | inr (inr w) ↦ inl (
                  hung w.packet (record {
                    gone = gone;
                    at_rest = read_idle q (λ e. cc (gone, e));
                    has = w.has;
                    outside = w.outside;
                    no_space = w.no_space;
                  }))
            ]
      ]

  -- What holds along a run after the signal.
  record Along (s t : Bench) (n : ℕ) : Type 0 where
    coherent : Coherent t
    stopped : t.stop ≡ true
    used : n + rank t ≤ rank s

  Run-Along : {s t : Bench} {n : ℕ} → Coherent s → s.stop ≡ true → Run s n t → Along s t n
  Run-Along q off nothing = record { coherent = q; stopped = off; used = omega arith }
  Run-Along q off (spin r st same) =
      let a = Run-Along q off r in
      record {
        coherent = Step-Coherent pool pool_mask smap st a.coherent;
        stopped = Step-stop pool pool_mask smap a.stopped st;
        used = omega (arith, a.used, ap rank same);
      }
  Run-Along q off (move r st ne) =
      let a = Run-Along q off r in
      record {
        coherent = Step-Coherent pool pool_mask smap st a.coherent;
        stopped = Step-stop pool pool_mask smap a.stopped st;
        used = elim (Step-rank pool pool_mask smap a.coherent a.stopped st) [
          | inl same ↦ absurd (ne same)
          | inr less ↦ omega (arith, a.used, less)
        ];
      }

  -- From every state that the benchmark reaches with `stop` set, on a queue of any length: however the
  -- threads take turns from there, at most ten of their steps change anything, and as long as there is
  -- no end, one of the threads has such a step. The end is that both threads have returned, or that the
  -- consumer has and the producer waits for ever in front of a full queue.
  pub Run-Ended :
      (qlen : ℕ) {s t : Bench} {n : ℕ}
      → Reach pool pool_mask smap (main_start qlen) s
      → s.stop ≡ true
      → Run s n t
      → (n ≤ 10) × (Ended t ⊎ ((u : Bench) × Step pool pool_mask smap t u × (u ≢ t)))
  Run-Ended qlen {s} {t} r off run =
      let a = Run-Along (Reach-Coherent pool pool_mask smap qlen r) off run in
      (
        omega (
          arith,
          a.used,
          producer_rank_fits s.producer s.sys.producer,
          consumer_rank_fits s.consumer s.sys.consumer,
        ),
        goes_on t a.coherent a.stopped,
      )
