-- ===== src/Spscq/Bench/Preserve.antt =====
-- Each step of the benchmark keeps its invariant.
use huc.Base.{
  ℕ, suc, ◌+◌, ◌-◌, ◌≤◌, ◌<◌, ◌≡◌, ◌≢◌, ap, ◌∙◌, sym, true, false, List, [], ◌∷◌, ◌++◌, ◌==◌,
  if◌then◌else◌, u32, u64, length, arith, ==-false, ==_refl, get_or-append, length-append,
  ℕ_discrete,
}
use huc.Spscq.Steps.{Producer, has_space, stored, Consumer, has_data, loaded}
use huc.Spscq.Invariant.{Injective, len}
use huc.Spscq.Bench.{
  Bench, ProducerLoop, getting, writing, ConsumerLoop, reading, putting, mbuf_at, mbuf_get,
}
use huc.Spscq.Bench.Invariant.{
  checksum, pool_len, address, Writes, Reads, ProducerInv, ConsumerInv, mbuf_at-address, address_ne,
}

-- A thread that is not at its call of the queue is outside of it.
module _ (k pool : ℕ) where
  pub Writes-other :
      (p : Producer) (l l' : ProducerLoop)
      → ((m : ℕ) → l ≢ writing m)
      → Writes k pool p l
      → Writes k pool p l'
  Writes-other Producer.outside l l' ne x = tt
  Writes-other (has_space m write next') l l' ne x = absurd (ne m x)
  Writes-other (stored m next') l l' ne x = absurd (ne m x)

  pub Reads-other :
      (c : Consumer) (l l' : ConsumerLoop) → l ≢ reading → Reads k pool c l → Reads k pool c l'
  Reads-other Consumer.outside l l' ne x = tt
  Reads-other (has_data read) l l' ne x = absurd (ne x)
  Reads-other (loaded m read) l l' ne x = absurd (ne x)

module _ (k pool : ℕ) (smap : ℕ → ℕ) (small : k ≤ 31) (pos : 0 < pool)
    (injective : Injective (len k smap) smap) where
  -- The producer takes the next packet of the pool.
  pub get-ProducerInv :
      (s : Bench)
      → ProducerInv k pool s.sys.sent s.sys.producer getting s.pool_idx s.lens
      → ProducerInv k pool s.sys.sent s.sys.producer
          (writing (mbuf_get pool (pool_len k pool - 1) 0 s).0)
          (mbuf_get pool (pool_len k pool - 1) 0 s).1.pool_idx
          (mbuf_get pool (pool_len k pool - 1) 0 s).1.lens
  unfolding mbuf_get
  get-ProducerInv s q = record {
    sent_at = q.sent_at;
    index = omega (arith, q.index);
    holds = at;
    writes = Writes-other k pool s.sys.producer getting _ (λ m e. cc) q.writes;
    lens_at = λ j lt near. elim (ℕ_discrete j w) [
      | yes e ↦ taken j e
      | no ne ↦ kept j (omega arith) near
    ];
  }
    where
      w : ℕ
      w = length s.sys.sent

      at : mbuf_at pool (pool_len k pool - 1) s.pool_idx ≡ address k pool w
      at = ap (mbuf_at pool (pool_len k pool - 1)) q.index ∙ mbuf_at-address k pool w small

      lens' : ℕ → ℕ
      lens' a =
          if mbuf_at pool (pool_len k pool - 1) s.pool_idx == a
          then u32 (s.pool_idx + 0)
          else s.lens a

      taken : (j : ℕ) → j ≡ w → lens' (address k pool j) ≡ u32 j
      taken j e =
          ap (λ b. if b then u32 (s.pool_idx + 0) else s.lens (address k pool j)) {y = true}
            (ap (λ a. a == address k pool j) at
              ∙ ap (λ i. address k pool w == address k pool i) e
              ∙ ==_refl (address k pool w))
          ∙ omega (arith, q.index, e)

      kept : (j : ℕ) → j < w → w + 1 ≤ j + pool_len k pool → lens' (address k pool j) ≡ u32 j
      kept j lt near =
          ap (λ b. if b then u32 (s.pool_idx + 0) else s.lens (address k pool j)) {y = false}
            (ap (λ a. a == address k pool j) at
              ∙ ==-false _ _ (address_ne k pool j w lt (omega arith)))
          ∙ q.lens_at j lt (omega arith)

  pub publish-ProducerInv :
      (sent : List ℕ) (m idx next' : ℕ) (lens : ℕ → ℕ)
      → ProducerInv k pool sent (stored m next') (writing m) idx lens
      → ProducerInv k pool (sent ++ m ∷ []) Producer.outside ProducerLoop.testing idx lens
  publish-ProducerInv sent m idx next' lens q = record {
    sent_at = λ j lt. elim (ℕ_discrete j (length sent)) [
      | yes e ↦ ground (arith, get_or-append sent m 0 j) ∙ q.holds ∙ ap (address k pool) (sym e)
      | no ne ↦
          ground (arith, get_or-append sent m 0 j)
          ∙ q.sent_at j (omega (arith, length-append sent (m ∷ [])))
    ];
    index = omega (arith, q.index, length-append sent (m ∷ []));
    holds = tt;
    writes = tt;
    lens_at = λ j lt near.
        q.lens_at j (omega (arith, length-append sent (m ∷ [])))
          (omega (arith, length-append sent (m ∷ [])));
  }

  -- A packet that is added up still has its number.
  pub put-ConsumerInv :
      (s : Bench) (m n : ℕ)
      → s.lens (address k pool n) ≡ u32 n
      → ConsumerInv k pool s.sys.received s.sys.consumer (putting m) s.pkt_cnt s.csum n
      → (m ≢ 0)
        × ConsumerInv k pool s.sys.received s.sys.consumer ConsumerLoop.testing
            (u64 (s.pkt_cnt + 1))
            (u32 (s.csum + s.lens m))
            (n + 1)
  put-ConsumerInv s m n e q =
      let one_more : suc n ≡ n + 1 = omega arith in
      let len : s.lens m ≡ u32 n = ap s.lens q.takes.1 ∙ e in
      (
        λ z. omega (arith, q.takes.1),
        record {
          takes = q.takes.0;
          reads = Reads-other k pool s.sys.consumer (putting m) _ (λ e. cc) q.reads;
          counted = omega (arith, q.counted);
          summed = omega (arith, q.summed, len) ∙ ap checksum one_more;
        },
      )

  pub release-ConsumerInv :
      (received : List ℕ) (m read pkt_cnt csum n : ℕ)
      → m ≡ address k pool (length received)
      → ConsumerInv k pool received (loaded m read) reading pkt_cnt csum n
      → ConsumerInv k pool (received ++ m ∷ []) Consumer.outside (putting m) pkt_cnt csum n
  release-ConsumerInv received m read pkt_cnt csum n e q = record {
    takes =
        (omega (arith, q.takes, length-append received (m ∷ [])), e ∙ ap (address k pool) q.takes);
    reads = tt;
    counted = q.counted;
    summed = q.summed;
  }
