-- ===== src/Spscq/Bench/Invariant.antt =====
-- Which packet is where: the packets in the queue and in the threads' hands are all different, and each
-- still has its own number in its field `len`.
use huc.Base.{
  ℕ, zero, suc, ◌+◌, ◌*◌, ◌-◌, ◌%◌, ◌^◌, ◌≤◌, ◌<◌, ◌≡◌, ◌≢◌, ap, ◌∙◌, List, u32, u64,
  bit_and-low_mask, mod-mod_pow, length, get_or, arith,
}
use huc.Spscq.Index.{mod_ne}
use huc.Spscq.Steps as Queue
use huc.Spscq.Steps.{Producer, has_space, stored, Consumer, has_data, loaded, System, start}
use huc.Spscq.Bench.{
  Bench, ProducerLoop, getting, writing, ConsumerLoop, reading, putting, mbuf_size, mbuf_at,
}

-- The sum of the numbers of the first `n` packets, as an `unsigned int`.
abbrev pub checksum : ℕ → ℕ
checksum zero = 0
checksum (suc n) = u32 (checksum n + u32 n)

module _ (k pool : ℕ) where
  -- The packets in the pool.
  abbrev pub pool_len : ℕ
  pool_len = 2 ^ suc k

  -- The address of the packet with the number `w`.
  abbrev pub address : ℕ → ℕ
  address w = pool + w % pool_len * mbuf_size

  -- The packets that the producer has taken from the pool, when `w` are sent.
  abbrev pub got : ProducerLoop → ℕ → ℕ
  got (writing m) w = w + 1
  got ProducerLoop.testing w = w
  got getting w = w
  got ProducerLoop.returned w = w

  abbrev pub Holds : ProducerLoop → ℕ → Type 0
  Holds (writing m) w = m ≡ address w
  Holds ProducerLoop.testing w = Unit
  Holds getting w = Unit
  Holds ProducerLoop.returned w = Unit

  -- The packet in `lq_write` is the one that the producer holds.
  abbrev pub Writes : Producer → ProducerLoop → Type 0
  Writes Producer.outside l = Unit
  Writes (has_space m write next) l = l ≡ writing m
  Writes (stored m next) l = l ≡ writing m

  -- When `r` packets are received and `n` of them added up.
  abbrev pub Takes : ConsumerLoop → ℕ → ℕ → Type 0
  Takes (putting m) r n = (r ≡ n + 1) × (m ≡ address n)
  Takes reading r n = r ≡ n
  Takes ConsumerLoop.testing r n = r ≡ n
  Takes ConsumerLoop.returned r n = r ≡ n

  abbrev pub Reads : Consumer → ConsumerLoop → Type 0
  Reads Consumer.outside l = Unit
  Reads (has_data read) l = l ≡ reading
  Reads (loaded m read) l = l ≡ reading

  -- The producer's side: the packets sent are those of the pool in turn, and each of the last
  -- `pool_len` packets that were taken has its number.
  pub record ProducerInv (sent : List ℕ) (p : Producer) (l : ProducerLoop) (idx : ℕ) (lens : ℕ → ℕ)
      : Type 0 where
    pub sent_at : (j : ℕ) → j < length sent → get_or sent j 0 ≡ address j
    pub index : idx ≡ u32 (got l (length sent))
    pub holds : Holds l (length sent)
    pub writes : Writes p l
    pub lens_at :
        (j : ℕ)
        → j < got l (length sent)
        → got l (length sent) ≤ j + pool_len
        → lens (address j) ≡ u32 j

  -- The consumer's side, when `n` packets are added up.
  pub record ConsumerInv (received : List ℕ) (c : Consumer) (l : ConsumerLoop) (pkt_cnt csum n : ℕ)
      : Type 0 where
    pub takes : Takes l (length received) n
    pub reads : Reads c l
    pub counted : pkt_cnt ≡ u64 n
    pub summed : csum ≡ checksum n

  pub record BenchInv (smap : ℕ → ℕ) (s : Bench) : Type 0 where
    pub added : ℕ
    pub queue_reach : Queue.Reach smap (start (2 ^ k)) s.sys
    pub produced : ProducerInv s.sys.sent s.sys.producer s.producer s.pool_idx s.lens
    pub consumed : ConsumerInv s.sys.received s.sys.consumer s.consumer s.pkt_cnt s.csum added

  -- The packet that `mbuf_get` takes is the next one of the pool.
  pub mbuf_at-address : (w : ℕ) → k ≤ 31 → mbuf_at pool (pool_len - 1) (u32 w) ≡ address w
  mbuf_at-address w small =
      ap (λ i. pool + i * mbuf_size)
        (bit_and-low_mask (suc k) (u32 w) ∙ mod-mod_pow (suc k) 32 w (omega arith))

  -- Packets less than a pool apart are different.
  pub address_ne : (i j : ℕ) → i < j → j < i + pool_len → address j ≢ address i
  address_ne i j lt near e = mod_ne pool_len i j lt near (omega arith)
