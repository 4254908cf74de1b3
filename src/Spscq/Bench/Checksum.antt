-- ===== src/Spscq/Bench/Checksum.antt =====
-- In every run of the benchmark the consumer adds up every packet once, in order.
use huc.Base.{ℕ, ◌+◌, ◌-◌, ◌^◌, ◌≤◌, ◌<◌, ◌≡◌, refl, u64, length, arith}
use huc.Spscq.Steps as Queue
use huc.Spscq.Steps.{Producer, has_space, stored, Consumer, has_data, loaded, System, start}
use huc.Spscq.Invariant.{Injective, len}
use huc.Spscq.Bench.{Bench, ConsumerLoop, reading, putting, Reach, here, next, main_start}
use huc.Spscq.Bench.Invariant.{checksum, pool_len, Takes, BenchInv}
use huc.Spscq.Bench.Stepwise.{Step-BenchInv}

module _ (k pool : ℕ) (smap : ℕ → ℕ) (small : k ≤ 31) (pos : 0 < pool)
    (injective : Injective (len k smap) smap) where
  taken_bounds : (l : ConsumerLoop) (r n : ℕ) → Takes k pool l r n → (n ≤ r) × (r ≤ n + 1)
  taken_bounds (putting m) r n t = omega arith
  taken_bounds reading r n t = omega arith
  taken_bounds ConsumerLoop.testing r n t = omega arith
  taken_bounds ConsumerLoop.returned r n t = omega arith

  main_start-BenchInv : BenchInv k pool smap (main_start (2 ^ k))
  main_start-BenchInv = record {
    added = 0;
    queue_reach = Queue.here;
    produced = record {
      sent_at = λ j lt. absurd (omega arith);
      index = refl;
      holds = tt;
      writes = tt;
      lens_at = λ j lt near. absurd (omega arith);
    };
    consumed = record { takes = refl; reads = tt; counted = refl; summed = refl };
  }

  pub Reach-BenchInv :
      {s : Bench}
      → Reach pool (pool_len k pool - 1) smap (main_start (2 ^ k)) s
      → BenchInv k pool smap s
  Reach-BenchInv here = main_start-BenchInv
  Reach-BenchInv (next r st) = Step-BenchInv k pool smap small pos injective st (Reach-BenchInv r)

  -- The benchmark on a queue of `2 ^ k` slots, `k` at most 31, with an injective order of the slots and
  -- a pool of `2 ^ (k + 1)` packets that does not start at address 0. In every state that the two
  -- threads reach, under every interleaving and whenever it is stopped: with `n` packets counted, the
  -- consumer has received `n`, or one more that it is about to add up, and its checksum is the sum of
  -- the numbers 0 to `n - 1`. No packet is overwritten, lost or added up twice.
  pub csum-checksum :
      {s : Bench}
      → Reach pool (pool_len k pool - 1) smap (main_start (2 ^ k)) s
      → (n : ℕ) × (n ≤ length s.sys.received)
        × (length s.sys.received ≤ n + 1)
        × (s.pkt_cnt ≡ u64 n)
        × (s.csum ≡ checksum n)
  csum-checksum {s} r =
      let q = Reach-BenchInv r in
      let (low, high) = taken_bounds s.consumer (length s.sys.received) q.added q.consumed.takes in
      (q.added, low, high, q.consumed.counted, q.consumed.summed)
