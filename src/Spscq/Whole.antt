-- ===== src/Spscq/Whole.antt =====
-- A whole call of `lq_write` or `lq_read` is a run of the steps of its thread.
use huc.Base.{ℕ, ◌≡◌, ◌⊎◌, inl, inr, refl, [], ◌∷◌, ◌++◌, arith, none, some, ℕ_discrete}
use huc.Spscq.{Blq, next_index, lq_write, lq_read, set_slot}
use huc.Spscq.Steps.{
  Producer, Consumer, System, check_space, store_slot, publish, check_data, load_slot, release,
  Reach, here, later,
}

module _ (smap : ℕ → ℕ) where
  -- An uninterrupted `lq_write` by a producer that is outside: either it fails, and the index behind
  -- the write index is the read index, or its steps lead to the queue that it returns, with the value
  -- sent.
  lq_write-Reach :
      (s : System) (m : ℕ)
      → s.producer ≡ Producer.outside
      → ((lq_write smap s.queue m ≡ none) × (next_index s.queue s.queue.write ≡ s.queue.read))
        ⊎ ((q : Blq) × (lq_write smap s.queue m ≡ some q)
            × Reach smap s
                (record s { queue = q; producer = Producer.outside; sent = s.sent ++ m ∷ [] }))
  unfolding lq_write
  lq_write-Reach s m at = elim (ℕ_discrete (next_index s.queue s.queue.write) s.queue.read) [
    | yes e ↦ inl (ground arith, e)
    | no ne ↦ inr (
      record (s.queue) {
        slots = set_slot s.queue.slots (smap s.queue.write) m;
        write = next_index s.queue s.queue.write;
      },
      ground arith,
      later (later (later here (check_space m at ne)) (store_slot m _ _ refl)) (publish m _ refl),
    )
  ]

  -- An uninterrupted `lq_read` by a consumer that is outside: either it returns 0 on an empty queue
  -- and leaves it, or its steps lead to the queue that it returns, with the value received.
  lq_read-Reach :
      (s : System)
      → s.consumer ≡ Consumer.outside
      → ((lq_read smap s.queue ≡ (0, s.queue)) × (s.queue.read ≡ s.queue.write))
        ⊎ ((m : ℕ) × (q : Blq) × (lq_read smap s.queue ≡ (m, q))
            × Reach smap s (record s {
              queue = q;
              consumer = Consumer.outside;
              received = s.received ++ m ∷ [];
            }))
  unfolding lq_read
  lq_read-Reach s at = elim (ℕ_discrete s.queue.read s.queue.write) [
    | yes e ↦ inl (ground arith, e)
    | no ne ↦ inr (
      s.queue.slots (smap s.queue.read),
      record (s.queue) { read = next_index s.queue s.queue.read },
      ground arith,
      later (later (later here (check_data at ne)) (load_slot _ refl)) (release _ _ refl),
    )
  ]
