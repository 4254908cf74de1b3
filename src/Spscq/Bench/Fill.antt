-- ===== src/Spscq/Bench/Fill.antt =====
-- A run of the benchmark that does not end.
use huc.Base.{ℕ, ◌-◌, ◌^◌, ◌≤◌, ◌≡◌, false}
use huc.Spscq.Steps.{Producer, Consumer}
use huc.Spscq.Bench.{Bench, ProducerLoop, ConsumerLoop, Reach, main_start}

module _ (pool pool_mask : ℕ) (smap : ℕ → ℕ) (k : ℕ) (small : k ≤ 31) where
  -- The producer has sent `n` packets, and the consumer none.
  record Filled (n : ℕ) (s : Bench) : Type 0 where
    run : Reach pool pool_mask smap (main_start (2 ^ k)) s
    at_test : s.producer ≡ ProducerLoop.testing
    at_rest : s.sys.producer ≡ Producer.outside
    consumer_at_test : s.consumer ≡ ConsumerLoop.testing
    consumer_at_rest : s.sys.consumer ≡ Consumer.outside
    on : s.stop ≡ false
    mask : s.sys.queue.qmask ≡ 2 ^ k - 1
    write_at : s.sys.queue.write ≡ n
    read_at : s.sys.queue.read ≡ 0
