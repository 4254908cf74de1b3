-- ===== src/Spscq/Bench/Stop.antt =====
-- How the benchmark ends once `stop` is set.
use huc.Base.{
  ℕ, ◌+◌, ◌≤◌, ◌<◌, ◌≡◌, ◌≢◌, ◌⊎◌, inl, inr, refl, ap, ap₂, ◌∙◌, sym, true, arith, ℕ_discrete,
}
use huc.Spscq.{next_index}
use huc.Spscq.Steps.{Producer, has_space, stored, Consumer, has_data, loaded}
use huc.Spscq.Bench.{
  Bench, ProducerLoop, getting, writing, ConsumerLoop, reading, putting, mbuf_get, Step, interrupt,
  go_on, leave, get, full, check_space, store_slot, publish, empty, check_data, load_slot, release,
  put, read_on, break,
}
use huc.Spscq.Bench.Coherent.{
  Coherent, write_idle, at_write, at_read, sys-mbuf_put, producer-mbuf_put, stop-mbuf_put,
}

-- How many steps a thread still has at most, by where it stands.
abbrev writing_rank : Producer → ℕ
writing_rank Producer.outside = 4
writing_rank (has_space m write next') = 3
writing_rank (stored m next') = 2

abbrev pub producer_rank : ProducerLoop → Producer → ℕ
producer_rank getting p = 5
producer_rank (writing m) p = writing_rank p
producer_rank ProducerLoop.testing p = 1
producer_rank ProducerLoop.returned p = 0

abbrev reading_rank : Consumer → ℕ
reading_rank Consumer.outside = 5
reading_rank (has_data read) = 4
reading_rank (loaded m read) = 3

abbrev pub consumer_rank : ConsumerLoop → Consumer → ℕ
consumer_rank reading c = reading_rank c
consumer_rank (putting m) c = 2
consumer_rank ConsumerLoop.testing c = 1
consumer_rank ConsumerLoop.returned c = 0

abbrev pub rank : Bench → ℕ
rank s = producer_rank s.producer s.sys.producer + consumer_rank s.consumer s.sys.consumer

pub producer_rank_fits : (l : ProducerLoop) (p : Producer) → producer_rank l p ≤ 5
producer_rank_fits getting p = omega arith
producer_rank_fits (writing m) Producer.outside = omega arith
producer_rank_fits (writing m) (has_space m' write next') = omega arith
producer_rank_fits (writing m) (stored m' next') = omega arith
producer_rank_fits ProducerLoop.testing p = omega arith
producer_rank_fits ProducerLoop.returned p = omega arith

pub consumer_rank_fits : (l : ConsumerLoop) (c : Consumer) → consumer_rank l c ≤ 5
consumer_rank_fits reading Consumer.outside = omega arith
consumer_rank_fits reading (has_data read) = omega arith
consumer_rank_fits reading (loaded m read) = omega arith
consumer_rank_fits (putting m) c = omega arith
consumer_rank_fits ConsumerLoop.testing c = omega arith
consumer_rank_fits ConsumerLoop.returned c = omega arith

module _ (pool pool_mask : ℕ) (smap : ℕ → ℕ) where
  -- Once `stop` is set, a step that is none of a spinning thread brings the end nearer.
  pub Step-rank :
      {s t : Bench}
      → Coherent s
      → s.stop ≡ true
      → Step pool pool_mask smap s t
      → (t ≡ s) ⊎ (rank t < rank s)
  unfolding mbuf_get
  Step-rank {s} q off interrupt = inl (ap (λ b. record s { stop = b }) (sym off))
  Step-rank q off (go_on at on) = absurd (cc (off, on))
  Step-rank {s} q off (leave at off') =
      inr (omega (arith, ap (λ l. producer_rank l s.sys.producer) at))
  Step-rank {s} q off (get at) =
      let out = write_idle q (λ m e. cc (at, e)) in
      inr (omega (arith, ap₂ producer_rank at out, ap writing_rank out))
  Step-rank q off (full m at out e) = inl refl
  Step-rank {s} q off (check_space m at out ne) = inr (
      omega (
        arith,
        ap₂ producer_rank at out,
        ap
            (λ l.
              producer_rank l
                (has_space m s.sys.queue.write (next_index s.sys.queue s.sys.queue.write)))
            at,
      ))
  Step-rank q off (store_slot m write next' at) =
      let (m', there) = at_write q (λ e. cc (at, e)) in
      inr (
        omega (arith, ap₂ producer_rank there at, ap (λ l. producer_rank l (stored m next')) there))
  Step-rank q off (publish m next' at) =
      let (m', there) = at_write q (λ e. cc (at, e)) in
      inr (omega (arith, ap₂ producer_rank there at))
  Step-rank q off (empty at out e) = inr (omega (arith, ap₂ consumer_rank at out))
  Step-rank {s} q off (check_data at out ne) = inr (
      omega
        (arith, ap₂ consumer_rank at out, ap (λ l. consumer_rank l (has_data s.sys.queue.read)) at))
  Step-rank {s} q off (load_slot read at) =
      let there = at_read q (λ e. cc (at, e)) in
      inr (
        omega (
          arith,
          ap₂ consumer_rank there at,
          ap (λ l. consumer_rank l (loaded (s.sys.queue.slots (smap read)) read)) there,
        ))
  Step-rank q off (release m read at) =
      let there = at_read q (λ e. cc (at, e)) in inr (omega (arith, ap₂ consumer_rank there at))
  Step-rank {s} q off (put m at) =
      let p =
        ap₂ producer_rank (producer-mbuf_put pool pool_mask smap m s)
          (ap (λ x. x.producer) (sys-mbuf_put pool pool_mask smap m s)) in
      inr (omega (arith, p, ap (λ l. consumer_rank l s.sys.consumer) at))
  Step-rank q off (read_on at on) = absurd (cc (off, on))
  Step-rank {s} q off (break at off') =
      inr (omega (arith, ap (λ l. consumer_rank l s.sys.consumer) at))

  pub Step-stop : {s t : Bench} → s.stop ≡ true → Step pool pool_mask smap s t → t.stop ≡ true
  unfolding mbuf_get
  Step-stop off interrupt = refl
  Step-stop off (go_on at on) = off
  Step-stop off (leave at off') = off
  Step-stop off (get at) = off
  Step-stop off (full m at out e) = off
  Step-stop off (check_space m at out ne) = off
  Step-stop off (store_slot m write next' at) = off
  Step-stop off (publish m next' at) = off
  Step-stop off (empty at out e) = off
  Step-stop off (check_data at out ne) = off
  Step-stop off (load_slot read at) = off
  Step-stop off (release m read at) = off
  Step-stop {s} off (put m at) = stop-mbuf_put pool pool_mask smap m s ∙ off
  Step-stop off (read_on at on) = off
  Step-stop off (break at off') = off

  -- A step that changes something.
  abbrev pub Nearer : Bench → Type 0
  Nearer s = (t : Bench) × Step pool pool_mask smap s t × (t ≢ s)

  -- A thread that has not returned can go on, but for a producer that waits for space.
  pub consumer_goes_on :
      (s : Bench) (l : ConsumerLoop) (c : Consumer)
      → s.stop ≡ true
      → s.consumer ≡ l
      → s.sys.consumer ≡ c
      → Nearer s ⊎ (s.consumer ≡ ConsumerLoop.returned)
  consumer_goes_on s reading Consumer.outside off at out =
      elim (ℕ_discrete s.sys.queue.read s.sys.queue.write) [
        | yes e ↦ inl (_, empty at out e, λ same. cc (ap (λ x. x.consumer) same, at))
        | no ne ↦ inl (_, check_data at out ne, λ same. cc (ap (λ x. x.sys.consumer) same, out))
      ]
  consumer_goes_on s reading (has_data read) off at in_read =
      inl (_, load_slot read in_read, λ same. cc (ap (λ x. x.sys.consumer) same, in_read))
  consumer_goes_on s reading (loaded m read) off at in_read =
      inl (_, release m read in_read, λ same. cc (ap (λ x. x.sys.consumer) same, in_read))
  consumer_goes_on s (putting m) c off at e =
      inl (_, put m at, λ same. cc (ap (λ x. x.consumer) same, at))
  consumer_goes_on s ConsumerLoop.testing c off at e =
      inl (_, break at off, λ same. cc (ap (λ x. x.consumer) same, at))
  consumer_goes_on s ConsumerLoop.returned c off at e = inr at

  -- The producer waits for space in a full queue.
  pub record Waits (s : Bench) : Type 0 where
    pub packet : ℕ
    pub has : s.producer ≡ writing packet
    pub outside : s.sys.producer ≡ Producer.outside
    pub no_space : next_index s.sys.queue s.sys.queue.write ≡ s.sys.queue.read

  pub producer_goes_on :
      (s : Bench) (l : ProducerLoop) (p : Producer)
      → s.stop ≡ true
      → s.producer ≡ l
      → s.sys.producer ≡ p
      → Nearer s ⊎ ((s.producer ≡ ProducerLoop.returned) ⊎ Waits s)
  unfolding mbuf_get
  producer_goes_on s ProducerLoop.testing p off at e =
      inl (_, leave at off, λ same. cc (ap (λ x. x.producer) same, at))
  producer_goes_on s getting p off at e =
      inl (_, get at, λ same. cc (ap (λ x. x.producer) same, at))
  producer_goes_on s ProducerLoop.returned p off at e = inr (inl at)
  producer_goes_on s (writing m) Producer.outside off at out =
      elim (ℕ_discrete (next_index s.sys.queue s.sys.queue.write) s.sys.queue.read) [
        | yes e ↦ inr (inr (record { packet = m; has = at; outside = out; no_space = e }))
        | no ne ↦ inl (_, check_space m at out ne, λ same. cc (ap (λ x. x.sys.producer) same, out))
      ]
  producer_goes_on s (writing m) (has_space m' write next') off at in_write =
      inl (
        _,
        store_slot m' write next' in_write,
        λ same. cc (ap (λ x. x.sys.producer) same, in_write),
      )
  producer_goes_on s (writing m) (stored m' next') off at in_write =
      inl (_, publish m' next' in_write, λ same. cc (ap (λ x. x.sys.producer) same, in_write))
