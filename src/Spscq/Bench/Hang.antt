-- ===== src/Spscq/Bench/Hang.antt =====
-- The benchmark does not end when the consumer leaves behind a full queue.
use huc.Base.{◌≡◌, ◌≢◌, ℕ}
use huc.Spscq.{next_index}
use huc.Spscq.Steps.{Producer, Consumer}
use huc.Spscq.Bench.{
  Bench, ProducerLoop, writing, ConsumerLoop, Step, interrupt, go_on, leave, get, full, check_space,
  store_slot, publish, empty, check_data, load_slot, release, put, read_on, break, Reach, here,
  next,
}

-- The consumer has returned, the queue is full, and the producer has the packet `m` to write.
pub record Stuck (m : ℕ) (s : Bench) : Type 0 where
  pub gone : s.consumer ≡ ConsumerLoop.returned
  pub at_rest : s.sys.consumer ≡ Consumer.outside
  pub has : s.producer ≡ writing m
  pub outside : s.sys.producer ≡ Producer.outside
  pub no_space : next_index s.sys.queue s.sys.queue.write ≡ s.sys.queue.read

module _ (pool pool_mask : ℕ) (smap : ℕ → ℕ) (m : ℕ) where
  Step-Stuck : {s t : Bench} → Step pool pool_mask smap s t → Stuck m s → Stuck m t
  Step-Stuck interrupt q = record {
    gone = q.gone;
    at_rest = q.at_rest;
    has = q.has;
    outside = q.outside;
    no_space = q.no_space;
  }
  Step-Stuck (go_on at on) q = absurd (cc (q.has))
  Step-Stuck (leave at off) q = absurd (cc (q.has))
  Step-Stuck (get at) q = absurd (cc (q.has))
  Step-Stuck (full m' at out e) q = q
  Step-Stuck (check_space m' at out ne) q = absurd (ne q.no_space)
  Step-Stuck (store_slot m' write next' at) q = absurd (cc (q.outside))
  Step-Stuck (publish m' next' at) q = absurd (cc (q.outside))
  Step-Stuck (empty at out e) q = absurd (cc (q.gone))
  Step-Stuck (check_data at out ne) q = absurd (cc (q.gone))
  Step-Stuck (load_slot read at) q = absurd (cc (q.at_rest))
  Step-Stuck (release m' read at) q = absurd (cc (q.at_rest))
  Step-Stuck (put m' at) q = absurd (cc (q.gone))
  Step-Stuck (read_on at on) q = absurd (cc (q.gone))
  Step-Stuck (break at off) q = absurd (cc (q.gone))

  Reach-Stuck : {s t : Bench} → Stuck m s → Reach pool pool_mask smap s t → Stuck m t
  Reach-Stuck q here = q
  Reach-Stuck q (next r st) = Step-Stuck st (Reach-Stuck q r)

  -- Once the consumer has returned while the queue is full and the producer has a packet to write, the
  -- producer tries for ever: in no state that can follow has `lq_producer` returned.
  pub Stuck-never_returned :
      {s t : Bench} → Stuck m s → Reach pool pool_mask smap s t → t.producer ≢ ProducerLoop.returned
  Stuck-never_returned q r e = let end = Reach-Stuck q r in cc (end.has)
