-- ===== src/Spscq/Bench/Main.antt =====
-- `main` of guestend/simplified-spscq/spscq.cpp up to the start of the threads.
use native.Mathlib.Nat.{pow-le-pow_right, one-le-pow}
use huc.Base.{
  ℕ, zero, suc, ◌+◌, ◌-◌, ◌*◌, ◌^◌, ◌≤◌, ◌<◌, ◌≡◌, refl, ap, ◌∙◌, sym, Bool, true, false, Option,
  none, some, List, [], ◌∷◌, length, u64, arith, pow-add,
}
use mathlib.Core.Path.{subst}
use huc.Spscq.Slots.{Shuffle, qslotmap_init, smap_of}
use huc.Spscq.Slots.Laws.{Shuffles, qslotmap_init-Injective}
use huc.Spscq.Invariant.{Injective}
use huc.Spscq.Fifo.{Reach-Inv}
use huc.Spscq.Steps.{Producer, Consumer, start}
use huc.Spscq.Bench.{Bench, ProducerLoop, reading, Reach, main_start, blq_create, pool_mask_of}
use huc.Spscq.Bench.Invariant.{checksum}
use huc.Spscq.Bench.Checksum.{csum-checksum, Reach-BenchInv}
use huc.Spscq.Bench.Memory.{blq_create-start, pool-smap}

-- The settings in `Global`, apart from the text `test_type`; no option changes them.
pub record Global : Type 0 where
  pub num_packets : ℕ
  pub qlen : ℕ
  pub line_entries : ℕ
  pub prod_batch : ℕ
  pub cons_batch : ℕ
  pub p_core : ℕ
  pub c_core : ℕ
  pub prod_spin_ticks : ℕ
  pub cons_spin_ticks : ℕ
  pub cons_rate_limit_cycles : ℕ
  pub online_rate : Bool
  pub perf_counters : Bool
  pub duration : ℕ
  pub latency : Bool
  pub deceive_hw_data_prefetcher : Bool
  pub hugepages : Bool

-- The values that the declaration gives them, `DFLT_BATCH` and so on.
abbrev pub default_global : Global
default_global = record {
  num_packets = 0;
  qlen = 256;
  line_entries = 32;
  prod_batch = 32;
  cons_batch = 32;
  p_core = 0;
  c_core = 1;
  prod_spin_ticks = 0;
  cons_spin_ticks = 0;
  cons_rate_limit_cycles = 0;
  online_rate = false;
  perf_counters = false;
  duration = 10;
  latency = false;
  deceive_hw_data_prefetcher = false;
  hugepages = false;
}

-- The zeroed memory behind the pool, as the array of `qlen` entries that becomes `smap`.
abbrev pub zeros : ℕ → List ℕ
zeros zero = []
zeros (suc n) = 0 ∷ zeros n

-- `smap` after `qslotmap_init(smap, g->qlen, g->deceive_hw_data_prefetcher)`
unfoldable pub main_smap : Shuffle → Global → ℕ → ℕ
main_smap shuffle g =
    smap_of (qslotmap_init shuffle g.qlen g.deceive_hw_data_prefetcher (zeros g.qlen))

-- The state in which `main` starts the threads; `none` if `blq_create` returns NULL, which `main` does
-- not look at.
unfoldable pub main_bench : Global → Option Bench
main_bench g = elim (blq_create g.qlen) [
  | none ↦ none
  | some q ↦ some (record {
    sys = record {
      queue = q;
      producer = Producer.outside;
      consumer = Consumer.outside;
      sent = [];
      received = [];
    };
    stop = false;
    producer = ProducerLoop.testing;
    consumer = reading;
    pool_idx = 0;
    lens = λ a. 0;
    pkt_cnt = 0;
    csum = 0;
    trash = 0;
  })
]

length-zeros : (n : ℕ) → length (zeros n) ≡ n
length-zeros zero = refl
length-zeros (suc n) = ap suc (length-zeros n)

main_bench-start :
    (g : Global) (k : ℕ) → 1 ≤ k → g.qlen ≡ 2 ^ k → main_bench g ≡ some (main_start g.qlen)
unfolding main_bench
main_bench-start g k pos e =
    let made : blq_create g.qlen ≡ some (start g.qlen).queue =
      subst (λ n. blq_create n ≡ some (start n).queue) (sym e) (blq_create-start k pos) in
    ground (arith, made)

-- The slots that the benchmark uses are all different.
main_smap-Injective :
    {shuffle : Shuffle} (s : Shuffles shuffle) (g : Global) (k : ℕ)
    → k ≤ 16
    → g.qlen ≡ 2 ^ k
    → (g.deceive_hw_data_prefetcher ≡ true → 3 ≤ k)
    → Injective (2 ^ k) (main_smap shuffle g)
unfolding main_smap
main_smap-Injective {shuffle} s g k le e whole =
    let bound : 2 ^ k ≤ 2 ^ 16 = pow-le-pow_right (omega arith) le in
    let (_, differ) =
      qslotmap_init-Injective s g.qlen g.deceive_hw_data_prefetcher (zeros g.qlen)
        (omega (arith, bound, e)) (length-zeros g.qlen) (λ d. omega (arith, e, eight (whole d))) in
    subst
      (λ n.
        Injective n
          (smap_of (qslotmap_init shuffle g.qlen g.deceive_hw_data_prefetcher (zeros g.qlen))))
      e differ
  where
    eight : 3 ≤ k → 2 ^ k ≡ 8 * 2 ^ (k - 3)
    eight three = ap (λ n. 2 ^ n) {y = 3 + (k - 3)} (omega arith) ∙ pow-add 3 (k - 3)

-- The program with any settings, on a queue of `2 ^ k` slots, `k` from 1 to 16 and at least 3 if the slots
-- are shuffled, a pool that does not start at address 0, and shuffles that keep the elements. `main`
-- gets its queue, and in every state that its threads reach, with `n` packets counted: the consumer has
-- received `n`, or one more, its checksum is the sum of the numbers 0 to `n - 1` modulo 2 ^ 32, and
-- fewer than `qlen` packets that were sent have not been received.
pub main-csum :
    {shuffle : Shuffle} (sh : Shuffles shuffle) (g : Global) (k pool : ℕ) {s : Bench}
    → 1 ≤ k
    → k ≤ 16
    → g.qlen ≡ 2 ^ k
    → (g.deceive_hw_data_prefetcher ≡ true → 3 ≤ k)
    → 0 < pool
    → Reach pool (pool_mask_of g.qlen) (main_smap shuffle g) (main_start g.qlen) s
    → (main_bench g ≡ some (main_start g.qlen))
      × (n : ℕ) × (n ≤ length s.sys.received)
      × (length s.sys.received ≤ n + 1)
      × (s.pkt_cnt ≡ u64 n)
      × (s.csum ≡ checksum n)
      × (length s.sys.sent < length s.sys.received + g.qlen)
main-csum {shuffle} sh g k pool {s} pos le e whole at r =
    let differ = main_smap-Injective sh g k le e whole in
    let (mask, _, _) = pool-smap k pool 0 0 (omega arith) (one-le-pow k 2 (omega arith)) in
    let same : pool_mask_of g.qlen ≡ 2 ^ suc k - 1 = ap pool_mask_of e ∙ mask in
    let r' : Reach pool (2 ^ suc k - 1) (main_smap shuffle g) (main_start (2 ^ k)) s =
      subst (λ m. Reach pool m (main_smap shuffle g) (main_start (2 ^ k)) s) same
        (subst (λ l. Reach pool (pool_mask_of g.qlen) (main_smap shuffle g) (main_start l) s) e
          r) in
    let (n, low, high, counted, summed) =
      csum-checksum k pool (main_smap shuffle g) (omega arith) at differ r' in
    let q = Reach-BenchInv k pool (main_smap shuffle g) (omega arith) at differ r' in
    let i = Reach-Inv k (main_smap shuffle g) (omega arith) differ q.queue_reach in
    (main_bench-start g k pos e, n, low, high, counted, summed, omega (arith, i.room, e))
