-- ===== src/Tests/Bench.antt =====
-- The queue of two slots again: its list of waiting values, its slots, the benchmark, and the lines that
-- a batch covers.
use mathlib.Core.List.Perm
use huc.Base.{
  ℕ, ◌==◌, if◌then◌else◌, ◌⊎◌, ◌↔◌, ◌+◌, ◌≤◌, ◌<◌, ◌≡◌, ◌≢◌, refl, ap, true, none, some, [], ◌∷◌,
  arith, length, u64,
}
use huc.Spscq.{lq_write, lq_read, set_slot}
use huc.Spscq.Invariant.{Injective}
use huc.Spscq.Steps as Threads
use huc.Spscq.Steps.{Producer, Consumer, System, start, has_space, stored}
use huc.Spscq.Refine.{waiting, calls-waiting}
use huc.Spscq.Drain.{received_all}
use huc.Spscq.Slots.{Shuffle, smap_of, qslotmap_init}
use huc.Spscq.Slots.Laws.{Shuffles, qslotmap_init-Injective}
use huc.Spscq.Bench.{
  Bench, writing, ConsumerLoop, main_start, mbuf_get, mbuf_put, check_data, load_slot, release, put,
  Reach, here, next, interrupt, go_on, get, check_space, store_slot, publish, empty, break, full,
}
use huc.Spscq.Bench.Invariant.{checksum}
use huc.Spscq.Bench.Main.{Global, default_global, main_smap, main_bench, main-csum}
use huc.Spscq.Bench.Hang.{Stuck}
use huc.Spscq.Bench.{pool_mask_of, Step}
use huc.Spscq.Bench.Ends.{Ended, nothing, move, spin, Run-Ended}
use huc.Tests.Queue.{one_waits, one_waits-Reach}

calls-waiting_example :
    ((lq_write (λ i. i) one_waits.queue 44 ≡ none) ↔ (length (waiting one_waits) ≡ 1))
    × ((lq_read (λ i. i) one_waits.queue).0 ≡ 43)
calls-waiting_example = calls-waiting 1 (λ i. i) (omega arith) (λ i j hi hj e. e) 44 one_waits-Reach

received_all_example :
    (t : System) × Threads.Reach (λ i. i) one_waits t
    × (t.sent ≡ 42 ∷ 43 ∷ [])
    × (t.consumer ≡ Consumer.outside)
    × (t.received ≡ 42 ∷ 43 ∷ [])
received_all_example = received_all 1 (λ i. i) (omega arith) (λ i j hi hj e. e) one_waits-Reach

-- A shuffle that changes nothing.
abbrev unmoved : Shuffle
unmoved j xs = xs

unmoved-Shuffles : Shuffles unmoved
unmoved-Shuffles = record { keeps = λ j xs. Perm.refl xs }

qslotmap_init-Injective_example :
    ((i : ℕ)
      → i < 8
      → smap_of (qslotmap_init unmoved 8 true (0 ∷ 0 ∷ 0 ∷ 0 ∷ 0 ∷ 0 ∷ 0 ∷ 0 ∷ [])) i < 8)
    × Injective 8 (smap_of (qslotmap_init unmoved 8 true (0 ∷ 0 ∷ 0 ∷ 0 ∷ 0 ∷ 0 ∷ 0 ∷ 0 ∷ [])))
qslotmap_init-Injective_example =
    qslotmap_init-Injective unmoved-Shuffles 8 true (0 ∷ 0 ∷ 0 ∷ 0 ∷ 0 ∷ 0 ∷ 0 ∷ 0 ∷ [])
      (omega arith) refl (λ e. omega arith)

-- The producer has sent the packet at the address 64, the first of four, and has taken the next.
abbrev one_sent : Bench
one_sent = record (main_start 2) {
  sys = record {
    queue = record { write = 1; read = 0; qlen = 2; qmask = 1; slots = set_slot (λ i. 0) 0 64 };
    producer = Producer.outside;
    consumer = Consumer.outside;
    sent = 64 ∷ [];
    received = [];
  };
  stop = true;
  consumer = ConsumerLoop.returned;
  producer = writing 4224;
  pool_idx = 2;
  lens = λ a. if 4224 == a then 1 else if 64 == a then 0 else 0;
}

-- The same before the consumer has seen `stop`.
abbrev one_signal : Bench
one_signal = record one_sent { consumer = ConsumerLoop.testing }

one_signal-Reach : Reach 64 3 (λ i. i) (main_start 2) one_signal
unfolding mbuf_get
one_signal-Reach =
    next
      (next
        (next
          (next
            (next
              (next (next (next (next here (empty refl refl refl)) (go_on refl refl)) (get refl))
                (check_space 64 refl refl (λ e. omega arith)))
              (store_slot 64 0 1 refl))
            (publish 64 1 refl))
          (go_on refl refl))
        (get refl))
      interrupt

one_sent-Reach : Reach 64 3 (λ i. i) (main_start 2) one_sent
one_sent-Reach = next one_signal-Reach (break refl refl)

one_sent-Stuck : Stuck 4224 one_sent
one_sent-Stuck = record { gone = refl; at_rest = refl; has = refl; outside = refl; no_space = refl }

-- The default settings, but for a queue of two slots.
abbrev two_slots : Global
two_slots = record default_global { qlen = 2 }

-- One packet went through the queue and was counted.
abbrev one_counted : Bench
one_counted = record (main_start 2) {
  sys = record {
    queue = record { write = 1; read = 1; qlen = 2; qmask = 1; slots = set_slot (λ i. 0) 0 64 };
    producer = Producer.outside;
    consumer = Consumer.outside;
    sent = 64 ∷ [];
    received = 64 ∷ [];
  };
  consumer = ConsumerLoop.testing;
  pool_idx = 1;
  lens = λ a. if 64 == a then 0 else 0;
  pkt_cnt = 1;
  trash = 64;
}

one_counted-Reach :
    Reach 64 (pool_mask_of 2) (main_smap unmoved two_slots) (main_start 2) one_counted
unfolding mbuf_get mbuf_put pool_mask_of main_smap qslotmap_init
one_counted-Reach =
    next
      (next
        (next
          (next
            (next
              (next
                (next (next (next here (go_on refl refl)) (get refl))
                  (check_space 64 refl refl (λ e. omega arith)))
                (store_slot 64 0 1 refl))
              (publish 64 1 refl))
            (check_data refl refl (λ e. omega arith)))
          (load_slot 0 refl))
        (release 64 0 refl))
      (put 64 refl)

main-csum_example :
    (main_bench two_slots ≡ some (main_start 2))
    × (n : ℕ) × (n ≤ 1)
    × (1 ≤ n + 1)
    × (1 ≡ u64 n)
    × (0 ≡ checksum n)
    × (1 < 1 + 2)
main-csum_example =
    main-csum unmoved-Shuffles two_slots 1 64 (omega arith) (omega arith) refl
      (λ e. absurd (cc (e))) (omega arith) one_counted-Reach

-- The producer finds the queue full, the consumer leaves, and the producer tries again.
Run-Ended_example :
    (1 ≤ 10) × (Ended one_sent ⊎ ((u : Bench) × Step 64 3 (λ i. i) one_sent u × (u ≢ one_sent)))
Run-Ended_example =
    Run-Ended 64 3 (λ i. i) 2 one_signal-Reach refl
      (spin
        (move (spin nothing (full 4224 refl refl refl) refl) (break refl refl)
          (λ e. cc (ap (λ x. x.consumer) e)))
        (full 4224 refl refl refl) refl)
