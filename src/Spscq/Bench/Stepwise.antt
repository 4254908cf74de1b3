-- ===== src/Spscq/Bench/Stepwise.antt =====
-- Every step of the benchmark keeps the invariant.
use mathlib.Core.Path.{subst}
use native.Mathlib.Nat.{one-le-pow, pow-suc}
use huc.Base.{List, ℕ, ◌+◌, ◌-◌, ◌≤◌, ◌<◌, ◌≡◌, ◌≢◌, ◌∙◌, sym, u32, u64, length, arith}
use huc.Spscq.Steps as Queue
use huc.Spscq.Steps.{Producer, has_space, stored, Consumer, has_data, loaded, System, start}
use huc.Spscq.Invariant.{Injective, len, Inv, ConsumerOk}
use huc.Spscq.Fifo.{Reach-Inv}
use huc.Spscq.Bench.{
  Bench, ProducerLoop, getting, writing, ConsumerLoop, reading, putting, mbuf_get, mbuf_put, Step,
  interrupt, go_on, leave, get, full, check_space, store_slot, publish, empty, check_data,
  load_slot, release, put, read_on, break,
}
use huc.Spscq.Bench.Invariant.{
  pool_len, address, got, Writes, Reads, Takes, ProducerInv, ConsumerInv, BenchInv,
}
use huc.Spscq.Bench.Preserve.{
  Writes-other, Reads-other, get-ProducerInv, publish-ProducerInv, put-ConsumerInv,
  release-ConsumerInv,
}

module _ (k pool : ℕ) (smap : ℕ → ℕ) (small : k ≤ 31) (pos : 0 < pool)
    (injective : Injective (len k smap) smap) where
  got_bounds : (l : ProducerLoop) (w : ℕ) → (w ≤ got k pool l w) × (got k pool l w ≤ w + 1)
  got_bounds (writing m) w = omega arith
  got_bounds ProducerLoop.testing w = omega arith
  got_bounds getting w = omega arith
  got_bounds ProducerLoop.returned w = omega arith

  -- What a step leaves of a thread's side when it changes where the thread stands.
  producer_with :
      {sent : List ℕ} {p p' : Producer} {l : ProducerLoop} {idx : ℕ} {lens : ℕ → ℕ}
      → ProducerInv k pool sent p l idx lens
      → Writes k pool p' l
      → ProducerInv k pool sent p' l idx lens
  producer_with i writes = record {
    sent_at = i.sent_at;
    index = i.index;
    holds = i.holds;
    writes = writes;
    lens_at = i.lens_at;
  }

  consumer_with :
      {received : List ℕ} {c c' : Consumer} {l l' : ConsumerLoop} {cnt csum n : ℕ}
      → ConsumerInv k pool received c l cnt csum n
      → Takes k pool l' (length received) n
      → Reads k pool c' l'
      → ConsumerInv k pool received c' l' cnt csum n
  consumer_with i takes reads = record {
    takes = takes;
    reads = reads;
    counted = i.counted;
    summed = i.summed;
  }

  -- Views of the invariant along what a step knows of a thread.
  module _ (s : Bench) (q : BenchInv k pool smap s) where
    producer_at :
        {l : ProducerLoop}
        → s.producer ≡ l
        → ProducerInv k pool s.sys.sent s.sys.producer l s.pool_idx s.lens
    producer_at e =
        subst (λ l. ProducerInv k pool s.sys.sent s.sys.producer l s.pool_idx s.lens) e q.produced

    consumer_at :
        {l : ConsumerLoop}
        → s.consumer ≡ l
        → ConsumerInv k pool s.sys.received s.sys.consumer l s.pkt_cnt s.csum q.added
    consumer_at e =
        subst (λ l. ConsumerInv k pool s.sys.received s.sys.consumer l s.pkt_cnt s.csum q.added) e
          q.consumed

    queue : Inv k smap s.sys
    queue = Reach-Inv k smap small injective q.queue_reach

    -- The packet in hand has not been taken again.
    number_kept : (m : ℕ) → s.consumer ≡ putting m → s.lens (address k pool q.added) ≡ u32 q.added
    number_kept m e =
        let (taken, _) = (consumer_at e).takes in
        let (low, high) = got_bounds s.producer (length s.sys.sent) in
        q.produced.lens_at q.added (omega (arith, queue.behind))
          (omega (arith, queue.room, pow-suc 2 k, one-le-pow k 2 (omega arith)))

  mbuf_put_packet :
      (s : Bench) (m : ℕ)
      → m ≢ 0
      → mbuf_put pool (pool_len k pool - 1) m s ≡ record s {
        pkt_cnt = u64 (s.pkt_cnt + 1);
        trash = u32 (s.trash + m);
        csum = u32 (s.csum + s.lens m);
      }
  unfolding mbuf_put
  mbuf_put_packet s m ne = ground arith

  pub Step-BenchInv :
      {s t : Bench}
      → Step pool (pool_len k pool - 1) smap s t
      → BenchInv k pool smap s
      → BenchInv k pool smap t
  unfolding mbuf_get
  Step-BenchInv interrupt q = record {
    added = q.added;
    queue_reach = q.queue_reach;
    produced = q.produced;
    consumed = q.consumed;
  }
  Step-BenchInv {s} (go_on at on) q =
      let p = producer_at s q at in
      record {
        added = q.added;
        queue_reach = q.queue_reach;
        produced = record {
          sent_at = p.sent_at;
          index = p.index;
          holds = tt;
          writes = Writes-other k pool s.sys.producer ProducerLoop.testing _ (λ m e. cc) p.writes;
          lens_at = p.lens_at;
        };
        consumed = q.consumed;
      }
  Step-BenchInv {s} (leave at off) q =
      let p = producer_at s q at in
      record {
        added = q.added;
        queue_reach = q.queue_reach;
        produced = record {
          sent_at = p.sent_at;
          index = p.index;
          holds = tt;
          writes = Writes-other k pool s.sys.producer ProducerLoop.testing _ (λ m e. cc) p.writes;
          lens_at = p.lens_at;
        };
        consumed = q.consumed;
      }
  Step-BenchInv {s} (get at) q = record {
    added = q.added;
    queue_reach = q.queue_reach;
    produced = get-ProducerInv k pool smap small pos injective s (producer_at s q at);
    consumed = q.consumed;
  }
  Step-BenchInv (full m at out e) q = q
  Step-BenchInv {s} (check_space m at out ne) q = record {
    added = q.added;
    queue_reach = Queue.later q.queue_reach (Queue.check_space m out ne);
    produced = producer_with q.produced at;
    consumed = q.consumed;
  }
  Step-BenchInv {s} (store_slot m write next' at) q = record {
    added = q.added;
    queue_reach = Queue.later q.queue_reach (Queue.store_slot m write next' at);
    produced =
        producer_with q.produced (subst (λ p. Writes k pool p s.producer) at q.produced.writes);
    consumed = q.consumed;
  }
  Step-BenchInv {s} (publish m next' at) q =
      let here_it_is : s.producer ≡ writing m =
        subst (λ p. Writes k pool p s.producer) at q.produced.writes in
      record {
        added = q.added;
        queue_reach = Queue.later q.queue_reach (Queue.publish m next' at);
        produced =
            publish-ProducerInv k pool smap small pos injective s.sys.sent m s.pool_idx next' s.lens
              (subst (λ p. ProducerInv k pool s.sys.sent p (writing m) s.pool_idx s.lens) at
                (producer_at s q here_it_is));
        consumed = q.consumed;
      }
  Step-BenchInv {s} (empty at out e) q =
      let c = consumer_at s q at in
      record {
        added = q.added;
        queue_reach = q.queue_reach;
        produced = q.produced;
        consumed =
            consumer_with c c.takes (subst (λ c. Reads k pool c ConsumerLoop.testing) (sym out) tt);
      }
  Step-BenchInv {s} (check_data at out ne) q = record {
    added = q.added;
    queue_reach = Queue.later q.queue_reach (Queue.check_data out ne);
    produced = q.produced;
    consumed = consumer_with q.consumed q.consumed.takes at;
  }
  Step-BenchInv {s} (load_slot read at) q = record {
    added = q.added;
    queue_reach = Queue.later q.queue_reach (Queue.load_slot read at);
    produced = q.produced;
    consumed =
        consumer_with q.consumed q.consumed.takes
          (subst (λ c. Reads k pool c s.consumer) at q.consumed.reads);
  }
  Step-BenchInv {s} (release m read at) q =
      let there : s.consumer ≡ reading =
        subst (λ c. Reads k pool c s.consumer) at q.consumed.reads in
      let i = queue s q in
      let (_, lt, is) =
        subst (ConsumerOk k smap (length s.sys.sent) (length s.sys.received) s.sys.sent) at
          i.consumer_ok in
      record {
        added = q.added;
        queue_reach = Queue.later q.queue_reach (Queue.release m read at);
        produced = q.produced;
        consumed =
            release-ConsumerInv k pool smap small pos injective s.sys.received m read s.pkt_cnt
              s.csum q.added (is ∙ q.produced.sent_at (length s.sys.received) lt)
              (subst (λ c. ConsumerInv k pool s.sys.received c reading s.pkt_cnt s.csum q.added) at
                (consumer_at s q there));
      }
  Step-BenchInv {s} (put m at) q =
      let (some_packet, c) =
        put-ConsumerInv k pool smap small pos injective s m q.added (number_kept s q m at)
          (consumer_at s q at) in
      subst (λ t. BenchInv k pool smap (record t { consumer = ConsumerLoop.testing }))
        (sym (mbuf_put_packet s m some_packet))
        (record {
          added = q.added + 1;
          queue_reach = q.queue_reach;
          produced = q.produced;
          consumed = c;
        })
  Step-BenchInv {s} (read_on at on) q =
      let c = consumer_at s q at in
      record {
        added = q.added;
        queue_reach = q.queue_reach;
        produced = q.produced;
        consumed =
            consumer_with c c.takes
              (Reads-other k pool s.sys.consumer ConsumerLoop.testing _ (λ e. cc) c.reads);
      }
  Step-BenchInv {s} (break at off) q =
      let c = consumer_at s q at in
      record {
        added = q.added;
        queue_reach = q.queue_reach;
        produced = q.produced;
        consumed =
            consumer_with c c.takes
              (Reads-other k pool s.sys.consumer ConsumerLoop.testing _ (λ e. cc) c.reads);
      }
