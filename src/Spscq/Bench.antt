-- ===== src/Spscq/Bench.antt =====
-- The benchmark of guestend/simplified-spscq/spscq.cpp: `lq_producer` and `lq_consumer` over the queue and
-- a pool of packet buffers. A shared access of a thread is a step of its own.
pub mod Invariant
pub mod Preserve
pub mod Stepwise
pub mod Checksum
pub mod Hang
pub mod Fill
pub mod Coherent
pub mod Stop
pub mod Ends
pub mod Memory
pub mod Main
use huc.Base.{
  ℕ, ◌+◌, ◌*◌, ◌^◌, ◌-◌, ◌≡◌, ◌≢◌, Bool, true, false, Option, none, some, List, [], ◌∷◌, ◌++◌, ◌==◌,
  if◌then◌else◌, bit_and, u32, u64,
}
use huc.Spscq.{Blq, next_index, set_slot, init, aligned_size, blq_size}
use huc.Spscq.Steps.{Producer, has_space, stored, Consumer, has_data, loaded, System, start}

-- What `szalloc` gives `blq_create`, as a queue: zeroed memory.
abbrev pub zeroed : Blq
zeroed = record { write = 0; read = 0; qlen = 0; qmask = 0; slots = λ i. 0 }

-- `blq_create(qlen, hugepages)`, where the allocation succeeds; `none` is NULL.
unfoldable pub blq_create : ℕ → Option Blq
blq_create qlen = init zeroed qlen

-- `blq_free(blq, true)`: the structure is cleared first, and what is unmapped then is the size of a
-- queue of the length that is read from it.
unfoldable pub blq_free : Blq → ℕ
blq_free q =
    let cleared : Blq = record q { write = 0; read = 0; qlen = 0; qmask = 0 } in
    blq_size cleared.qlen

-- `sizeof(Mbuf)`
abbrev pub mbuf_size : ℕ
mbuf_size = 4160

-- `pool_size` and `pool_and_smap_size` of `main`; the array `smap` of unsigned shorts starts `pool_size`
-- bytes behind the pool.
unfoldable pub pool_size : ℕ → ℕ
pool_size qlen = aligned_size (u32 (2 * qlen) * mbuf_size)

unfoldable pub pool_and_smap_size : ℕ → ℕ
unfolding pool_size
pool_and_smap_size qlen = pool_size qlen + qlen * 2

-- `(2 * g->qlen) - 1`, as an `unsigned`
unfoldable pub pool_mask_of : ℕ → ℕ
pool_mask_of qlen = u32 (2 * qlen + 2 ^ 32 - 1)

-- Where `lq_producer` stands: at the test of `stop`, past it, trying to write the packet `m`, or
-- returned.
pub data ProducerLoop : Type 0 where
  testing : ProducerLoop
  getting : ProducerLoop
  writing : (m : ℕ) → ProducerLoop
  returned : ProducerLoop

-- Where `lq_consumer` stands: in `lq_read`, with the packet `m` in hand, at the test of `stop`, or
-- returned.
pub data ConsumerLoop : Type 0 where
  reading : ConsumerLoop
  putting : (m : ℕ) → ConsumerLoop
  testing : ConsumerLoop
  returned : ConsumerLoop

-- The globals and locals of the two threads. `lens` has the field `len` of the packet at each
-- address; `csum` and `trash` are the consumer's.
pub record Bench : Type 0 where
  pub sys : System
  pub stop : Bool
  pub producer : ProducerLoop
  pub consumer : ConsumerLoop
  pub pool_idx : ℕ
  pub lens : ℕ → ℕ
  pub pkt_cnt : ℕ
  pub csum : ℕ
  pub trash : ℕ

-- `pool` is the address of the first packet, `pool_mask` the mask of the pool's indices.
module _ (pool pool_mask : ℕ) where
  -- `&g->pool[i & g->pool_mask]`
  abbrev pub mbuf_at : ℕ → ℕ
  mbuf_at i = pool + bit_and i pool_mask * mbuf_size

  -- `mbuf_get(g, trash)`: the packet, and the state after it.
  unfoldable pub mbuf_get : ℕ → Bench → ℕ × Bench
  mbuf_get trash s =
      let m = mbuf_at s.pool_idx in
      let len = u32 (s.pool_idx + (if trash == 0xdeadbeef then 1 else 0)) in
      (
        m,
        record s { pool_idx = u32 (s.pool_idx + 1); lens = λ a. if m == a then len else s.lens a },
      )

  -- What `lq_consumer` does with the packet `m`, 0 for none: the count, and `mbuf_put`.
  unfoldable pub mbuf_put : ℕ → Bench → Bench
  mbuf_put m s = if m == 0 then s else record s {
    pkt_cnt = u64 (s.pkt_cnt + 1);
    trash = u32 (s.trash + m);
    csum = u32 (s.csum + s.lens m);
  }

  module _ (smap : ℕ → ℕ) where
    pub data Step (s : Bench) : Bench → Type 0 where
      interrupt : Step s (record s { stop = true })
      go_on :
          s.producer ≡ ProducerLoop.testing
          → s.stop ≡ false
          → Step s (record s { producer = getting })
      leave :
          s.producer ≡ ProducerLoop.testing
          → s.stop ≡ true
          → Step s (record s { producer = ProducerLoop.returned })
      get :
          s.producer ≡ getting
          → Step s (record ((mbuf_get 0 s).1) { producer = writing (mbuf_get 0 s).0 })
      full :
          (m : ℕ)
          → s.producer ≡ writing m
          → s.sys.producer ≡ Producer.outside
          → next_index s.sys.queue s.sys.queue.write ≡ s.sys.queue.read
          → Step s s
      check_space :
          (m : ℕ)
          → s.producer ≡ writing m
          → s.sys.producer ≡ Producer.outside
          → next_index s.sys.queue s.sys.queue.write ≢ s.sys.queue.read
          → Step s (record s {
            sys = record (s.sys) {
              producer = has_space m s.sys.queue.write (next_index s.sys.queue s.sys.queue.write);
            };
          })
      store_slot :
          (m write next : ℕ)
          → s.sys.producer ≡ has_space m write next
          → Step s (record s {
            sys = record (s.sys) {
              queue = record (s.sys.queue) { slots = set_slot s.sys.queue.slots (smap write) m };
              producer = stored m next;
            };
          })
      publish :
          (m next : ℕ)
          → s.sys.producer ≡ stored m next
          → Step s (record s {
            sys = record (s.sys) {
              queue = record (s.sys.queue) { write = next };
              producer = Producer.outside;
              sent = s.sys.sent ++ m ∷ [];
            };
            producer = ProducerLoop.testing;
          })
      empty :
          s.consumer ≡ reading
          → s.sys.consumer ≡ Consumer.outside
          → s.sys.queue.read ≡ s.sys.queue.write
          → Step s (record s { consumer = ConsumerLoop.testing })
      check_data :
          s.consumer ≡ reading
          → s.sys.consumer ≡ Consumer.outside
          → s.sys.queue.read ≢ s.sys.queue.write
          → Step s (record s { sys = record (s.sys) { consumer = has_data s.sys.queue.read } })
      load_slot :
          (read : ℕ)
          → s.sys.consumer ≡ has_data read
          → Step s (record s {
            sys = record (s.sys) { consumer = loaded (s.sys.queue.slots (smap read)) read };
          })
      release :
          (m read : ℕ)
          → s.sys.consumer ≡ loaded m read
          → Step s (record s {
            sys = record (s.sys) {
              queue = record (s.sys.queue) { read = next_index s.sys.queue read };
              consumer = Consumer.outside;
              received = s.sys.received ++ m ∷ [];
            };
            consumer = putting m;
          })
      put :
          (m : ℕ)
          → s.consumer ≡ putting m
          → Step s (record (mbuf_put m s) { consumer = ConsumerLoop.testing })
      read_on :
          s.consumer ≡ ConsumerLoop.testing
          → s.stop ≡ false
          → Step s (record s { consumer = reading })
      break :
          s.consumer ≡ ConsumerLoop.testing
          → s.stop ≡ true
          → Step s (record s { consumer = ConsumerLoop.returned })

    pub data Reach (s : Bench) : Bench → Type 0 where
      here : Reach s s
      next : {t u : Bench} → Reach s t → Step t u → Reach s u

-- The state in which `main` starts the threads on a queue of `qlen` slots.
abbrev pub main_start : ℕ → Bench
main_start qlen = record {
  sys = start qlen;
  stop = false;
  producer = ProducerLoop.testing;
  consumer = reading;
  pool_idx = 0;
  lens = λ a. 0;
  pkt_cnt = 0;
  csum = 0;
  trash = 0;
}
