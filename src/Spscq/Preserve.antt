-- ===== src/Spscq/Preserve.antt =====
-- Every step of the two threads keeps the ring's invariant.
use huc.Base.{
  ℕ, ◌+◌, ◌%◌, ◌≤◌, ◌<◌, ◌≡◌, ◌≢◌, ap, ◌∙◌, sym, List, [], ◌∷◌, ◌++◌, arith, length, get_or,
  get_or-append, length-append, if◌then◌else◌, ==_refl, ℕ_discrete,
}
use mathlib.Core.Path.{subst}
use huc.Spscq.{next_index, set_slot}
use huc.Spscq.Steps.{Producer, has_space, stored, Consumer, has_data, loaded, System}
use huc.Spscq.Invariant.{Injective, len, ProducerOk, ConsumerOk, Inv, next_lem, slot_apart}

module _ (k : ℕ) (smap : ℕ → ℕ) (small : k ≤ 31) (injective : Injective (len k smap) smap) where
  abbrev size : ℕ
  size = len k smap

  pub store_slot-Inv :
      (s : System) (m write next : ℕ)
      → ProducerOk k smap (length s.sent) (length s.received) s.queue.slots (has_space m write next)
      → Inv k smap s
      → Inv k smap (record s {
        queue = record (s.queue) { slots = set_slot s.queue.slots (smap write) m };
        producer = stored m next;
      })
  store_slot-Inv s m write next (at, follows, free) q = record {
    mask = q.mask;
    write_at = q.write_at;
    read_at = q.read_at;
    behind = q.behind;
    room = q.room;
    order = q.order;
    held = λ j le lt.
        ap (λ w. set_slot s.queue.slots (smap w) m (smap (j % size))) at
        ∙ slot_apart k smap small injective s.queue.slots (length s.sent) (length s.received) j m le
            lt q.room
        ∙ q.held j le lt;
    producer_ok = (
      follows,
      free,
      ap (λ w. set_slot s.queue.slots (smap w) m (smap (length s.sent % size))) at
          ∙ ap (λ t. if t then m else s.queue.slots (smap (length s.sent % size))) (==_refl _),
    );
    consumer_ok = q.consumer_ok;
  }

  one_more : (xs : List ℕ) (m : ℕ) → length (xs ++ m ∷ []) ≡ length xs + 1
  one_more xs m = length-append xs (m ∷ [])

  -- The list of sent values grows behind what the consumer looks at.
  ConsumerOk-append :
      (r : ℕ) (sent : List ℕ) (m : ℕ) (c : Consumer)
      → ConsumerOk k smap (length sent) r sent c
      → ConsumerOk k smap (length (sent ++ m ∷ [])) r (sent ++ m ∷ []) c
  ConsumerOk-append r sent m Consumer.outside q = tt
  ConsumerOk-append r sent m (has_data read) (at, lt) = (at, omega (arith, one_more sent m))
  ConsumerOk-append r sent m (loaded x read) (at, lt, e) =
      (at, omega (arith, one_more sent m), ground (arith, get_or-append sent m 0 r))

  pub publish-Inv :
      (s : System) (m next : ℕ)
      → ProducerOk k smap (length s.sent) (length s.received) s.queue.slots (stored m next)
      → Inv k smap s
      → Inv k smap (record s {
        queue = record (s.queue) { write = next };
        producer = Producer.outside;
        sent = s.sent ++ m ∷ [];
      })
  publish-Inv s m next (follows, free, there) q = record {
    mask = q.mask;
    write_at = follows ∙ ap (λ n. n % size) (sym (one_more s.sent m));
    read_at = q.read_at;
    behind = omega (arith, q.behind, one_more s.sent m);
    room = omega (arith, one_more s.sent m);
    order = λ j lt. ground (arith, q.order j lt, q.behind, get_or-append s.sent m 0 j);
    held = λ j le lt. elim (ℕ_discrete j (length s.sent)) [
      | yes last ↦
          ap (λ i. s.queue.slots (smap (i % size))) last
          ∙ there
          ∙ ground (arith, last, get_or-append s.sent m 0 j)
      | no old ↦
          q.held j le (omega (arith, one_more s.sent m))
          ∙ ground (arith, old, get_or-append s.sent m 0 j)
    ];
    producer_ok = tt;
    consumer_ok = ConsumerOk-append (length s.received) s.sent m s.consumer q.consumer_ok;
  }

  pub check_data-Inv :
      (s : System)
      → s.queue.read ≢ s.queue.write
      → Inv k smap s
      → Inv k smap (record s { consumer = has_data s.queue.read })
  check_data-Inv s ne q = record {
    mask = q.mask;
    write_at = q.write_at;
    read_at = q.read_at;
    behind = q.behind;
    room = q.room;
    order = q.order;
    held = q.held;
    producer_ok = q.producer_ok;
    consumer_ok = (q.read_at, more);
  }
    where
      more : length s.received < length s.sent
      more = elim (ℕ_discrete (length s.received) (length s.sent)) [
        | yes e ↦ absurd (ne (q.read_at ∙ ap (λ t. t % size) e ∙ sym q.write_at))
        | no ne' ↦ omega (arith, q.behind)
      ]

  pub load_slot-Inv :
      (s : System) (read : ℕ)
      → ConsumerOk k smap (length s.sent) (length s.received) s.sent (has_data read)
      → Inv k smap s
      → Inv k smap (record s { consumer = loaded (s.queue.slots (smap read)) read })
  load_slot-Inv s read (at, lt) q = record {
    mask = q.mask;
    write_at = q.write_at;
    read_at = q.read_at;
    behind = q.behind;
    room = q.room;
    order = q.order;
    held = q.held;
    producer_ok = q.producer_ok;
    consumer_ok =
        (at, lt, ap (λ i. s.queue.slots (smap i)) at ∙ q.held (length s.received) (omega arith) lt);
  }

  -- The consumer makes room for the producer.
  ProducerOk-suc :
      (w r : ℕ) (slots : ℕ → ℕ) (p : Producer)
      → ProducerOk k smap w r slots p
      → ProducerOk k smap w (r + 1) slots p
  ProducerOk-suc w r slots Producer.outside q = tt
  ProducerOk-suc w r slots (has_space m write next) (a, b, c) = (a, b, omega arith)
  ProducerOk-suc w r slots (stored m next) (a, b, c) = (a, omega arith, c)

  pub release-Inv :
      (s : System) (m read : ℕ)
      → ConsumerOk k smap (length s.sent) (length s.received) s.sent (loaded m read)
      → Inv k smap s
      → Inv k smap (record s {
        queue = record (s.queue) { read = next_index s.queue read };
        consumer = Consumer.outside;
        received = s.received ++ m ∷ [];
      })
  release-Inv s m read (at, lt, e) q = record {
    mask = q.mask;
    write_at = q.write_at;
    read_at =
        ap (next_index s.queue) at
        ∙ next_lem k smap small injective s (length s.received) q
        ∙ ap (λ n. n % size) (sym (one_more s.received m));
    behind = omega (arith, one_more s.received m);
    room = omega (arith, q.room, one_more s.received m);
    order = λ j l. elim (ℕ_discrete j (length s.received)) [
      | yes last ↦
          ground (arith, last, e, ap (λ i. get_or s.sent i 0) last, get_or-append s.received m 0 j)
      | no old ↦ ground (
        arith,
        old,
        one_more s.received m,
        q.order j (omega (arith, one_more s.received m)),
        get_or-append s.received m 0 j,
      )
    ];
    held = λ j le l. q.held j (omega (arith, one_more s.received m)) l;
    producer_ok =
        subst (λ r. ProducerOk k smap (length s.sent) r s.queue.slots s.producer)
          (sym (one_more s.received m))
          (ProducerOk-suc (length s.sent) (length s.received) s.queue.slots s.producer
            q.producer_ok);
    consumer_ok = tt;
  }
