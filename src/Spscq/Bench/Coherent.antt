-- ===== src/Spscq/Bench/Coherent.antt =====
-- Where the benchmark's loops and the calls of the queue stand together.
use huc.Base.{ℕ, ◌≡◌, ◌≢◌, ◌⊎◌, inl, inr, refl, ap, ◌∙◌, arith}
use huc.Spscq.Steps.{Producer, Consumer}
use huc.Spscq.Bench.{
  Bench, writing, reading, mbuf_get, mbuf_put, Step, interrupt, go_on, leave, get, full,
  check_space, store_slot, publish, empty, check_data, load_slot, release, put, read_on, break,
  Reach, here, next, main_start,
}

-- Inside `lq_write` the producer's loop is at its call, and inside `lq_read` the consumer's.
pub record Coherent (s : Bench) : Type 0 where
  calls_write : (s.sys.producer ≡ Producer.outside) ⊎ ((m : ℕ) × (s.producer ≡ writing m))
  calls_read : (s.sys.consumer ≡ Consumer.outside) ⊎ (s.consumer ≡ reading)

pub write_idle :
    {s : Bench}
    → Coherent s
    → ((m : ℕ) → s.producer ≢ writing m)
    → s.sys.producer ≡ Producer.outside
write_idle q other = elim (q.calls_write) [ inl out ↦ out | inr (m, e) ↦ absurd (other m e) ]

pub read_idle : {s : Bench} → Coherent s → s.consumer ≢ reading → s.sys.consumer ≡ Consumer.outside
read_idle q other = elim (q.calls_read) [ inl out ↦ out | inr e ↦ absurd (other e) ]

pub at_write :
    {s : Bench}
    → Coherent s
    → s.sys.producer ≢ Producer.outside
    → (m : ℕ) × (s.producer ≡ writing m)
at_write q inside = elim (q.calls_write) [ inl out ↦ absurd (inside out) | inr there ↦ there ]

pub at_read : {s : Bench} → Coherent s → s.sys.consumer ≢ Consumer.outside → s.consumer ≡ reading
at_read q inside = elim (q.calls_read) [ inl out ↦ absurd (inside out) | inr e ↦ e ]

module _ (pool pool_mask : ℕ) (smap : ℕ → ℕ) where
  pub sys-mbuf_put : (m : ℕ) (s : Bench) → (mbuf_put pool pool_mask m s).sys ≡ s.sys
  unfolding mbuf_put
  sys-mbuf_put m s = ground arith

  pub producer-mbuf_put : (m : ℕ) (s : Bench) → (mbuf_put pool pool_mask m s).producer ≡ s.producer
  unfolding mbuf_put
  producer-mbuf_put m s = ground arith

  pub stop-mbuf_put : (m : ℕ) (s : Bench) → (mbuf_put pool pool_mask m s).stop ≡ s.stop
  unfolding mbuf_put
  stop-mbuf_put m s = ground arith

  pub Step-Coherent : {s t : Bench} → Step pool pool_mask smap s t → Coherent s → Coherent t
  unfolding mbuf_get
  Step-Coherent interrupt q = record { calls_write = q.calls_write; calls_read = q.calls_read }
  Step-Coherent (go_on at on) q = record {
    calls_write = inl (write_idle q (λ m e. cc (at, e)));
    calls_read = q.calls_read;
  }
  Step-Coherent (leave at off) q = record {
    calls_write = inl (write_idle q (λ m e. cc (at, e)));
    calls_read = q.calls_read;
  }
  Step-Coherent (get at) q = record { calls_write = inr (_, refl); calls_read = q.calls_read }
  Step-Coherent (full m at out e) q = q
  Step-Coherent (check_space m at out ne) q = record {
    calls_write = inr (m, at);
    calls_read = q.calls_read;
  }
  Step-Coherent (store_slot m write next' at) q = record {
    calls_write = inr (at_write q (λ e. cc (at, e)));
    calls_read = q.calls_read;
  }
  Step-Coherent (publish m next' at) q = record {
    calls_write = inl refl;
    calls_read = q.calls_read;
  }
  Step-Coherent (empty at out e) q = record { calls_write = q.calls_write; calls_read = inl out }
  Step-Coherent (check_data at out ne) q = record {
    calls_write = q.calls_write;
    calls_read = inr at;
  }
  Step-Coherent (load_slot read at) q = record {
    calls_write = q.calls_write;
    calls_read = inr (at_read q (λ e. cc (at, e)));
  }
  Step-Coherent (release m read at) q = record {
    calls_write = q.calls_write;
    calls_read = inl refl;
  }
  Step-Coherent {s} (put m at) q = record {
    calls_write = elim (q.calls_write) [
      | inl out ↦ inl (ap (λ x. x.producer) (sys-mbuf_put m s) ∙ out)
      | inr (x, e) ↦ inr (x, producer-mbuf_put m s ∙ e)
    ];
    calls_read = inl (ap (λ x. x.consumer) (sys-mbuf_put m s) ∙ read_idle q (λ e. cc (at, e)));
  }
  Step-Coherent (read_on at on) q = record {
    calls_write = q.calls_write;
    calls_read = inl (read_idle q (λ e. cc (at, e)));
  }
  Step-Coherent (break at off) q = record {
    calls_write = q.calls_write;
    calls_read = inl (read_idle q (λ e. cc (at, e)));
  }

  pub Reach-Coherent :
      (qlen : ℕ) {s : Bench} → Reach pool pool_mask smap (main_start qlen) s → Coherent s
  Reach-Coherent qlen here = record { calls_write = inl refl; calls_read = inl refl }
  Reach-Coherent qlen (next r st) = Step-Coherent st (Reach-Coherent qlen r)
