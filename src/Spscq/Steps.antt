-- ===== src/Spscq/Steps.antt =====
-- The producer and the consumer as two threads: each shared access of `lq_write` and `lq_read` of
-- guestend/simplified-spscq/spscq.h is a step of its own, and the steps interleave in any order.
use huc.Base.{ℕ, ◌-◌, ◌≡◌, ◌≢◌, List, [], ◌∷◌, ◌++◌}
use huc.Spscq.{Blq, next_index, set_slot}

-- Where the producer stands, with its locals: outside `lq_write`, past the test for space, or past
-- the store of the slot.
pub data Producer : Type 0 where
  outside : Producer
  has_space : (m write next : ℕ) → Producer
  stored : (m next : ℕ) → Producer

-- Where the consumer stands: outside `lq_read`, past the test for data, or past the load of the slot.
pub data Consumer : Type 0 where
  outside : Consumer
  has_data : (read : ℕ) → Consumer
  loaded : (m read : ℕ) → Consumer

-- The queue, the two threads, and two records of what happened: the values whose `lq_write` has
-- returned 0 and those whose `lq_read` has returned them, oldest first.
pub record System : Type 0 where
  pub queue : Blq
  pub producer : Producer
  pub consumer : Consumer
  pub sent : List ℕ
  pub received : List ℕ

module _ (smap : ℕ → ℕ) where
  -- A step of one thread. Each thread is the only one to write its own index, so that it may read it
  -- together with the other's.
  pub data Step (s : System) : System → Type 0 where
    full :
        s.producer ≡ Producer.outside → next_index s.queue s.queue.write ≡ s.queue.read → Step s s
    check_space :
        (m : ℕ)
        → s.producer ≡ Producer.outside
        → next_index s.queue s.queue.write ≢ s.queue.read
        → Step s
            (record s { producer = has_space m s.queue.write (next_index s.queue s.queue.write) })
    store_slot :
        (m write next : ℕ)
        → s.producer ≡ has_space m write next
        → Step s (record s {
          queue = record (s.queue) { slots = set_slot s.queue.slots (smap write) m };
          producer = stored m next;
        })
    publish :
        (m next : ℕ)
        → s.producer ≡ stored m next
        → Step s (record s {
          queue = record (s.queue) { write = next };
          producer = Producer.outside;
          sent = s.sent ++ m ∷ [];
        })
    empty : s.consumer ≡ Consumer.outside → s.queue.read ≡ s.queue.write → Step s s
    check_data :
        s.consumer ≡ Consumer.outside
        → s.queue.read ≢ s.queue.write
        → Step s (record s { consumer = has_data s.queue.read })
    load_slot :
        (read : ℕ)
        → s.consumer ≡ has_data read
        → Step s (record s { consumer = loaded (s.queue.slots (smap read)) read })
    release :
        (m read : ℕ)
        → s.consumer ≡ loaded m read
        → Step s (record s {
          queue = record (s.queue) { read = next_index s.queue read };
          consumer = Consumer.outside;
          received = s.received ++ m ∷ [];
        })

  pub data Reach (s : System) : System → Type 0 where
    here : Reach s s
    later : {t u : System} → Reach s t → Step t u → Reach s u

-- A queue fresh from `blq_create`, whose memory is zeroed, and both threads outside.
abbrev pub start : ℕ → System
start qlen = record {
  queue = record { write = 0; read = 0; qlen = qlen; qmask = qlen - 1; slots = λ i. 0 };
  producer = Producer.outside;
  consumer = Consumer.outside;
  sent = [];
  received = [];
}
