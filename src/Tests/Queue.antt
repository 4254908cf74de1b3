-- ===== src/Tests/Queue.antt =====
-- A queue of two slots.
use huc.Base.{ℕ, ◌<◌, ◌≡◌, refl, List, [], ◌∷◌, arith, length}
use huc.Spscq.{set_slot}
use huc.Spscq.Steps.{
  Producer, Consumer, System, check_space, store_slot, publish, check_data, load_slot, release,
  Reach, here, later, start,
}
use huc.Spscq.Fifo.{fifo}

-- One value was sent and received, another waits in the queue.
abbrev pub one_waits : System
one_waits = record {
  queue = record {
    write = 0;
    read = 1;
    qlen = 2;
    qmask = 1;
    slots = set_slot (set_slot (λ i. 0) 0 42) 1 43;
  };
  producer = Producer.outside;
  consumer = Consumer.outside;
  sent = 42 ∷ 43 ∷ [];
  received = 42 ∷ [];
}

pub one_waits-Reach : Reach (λ i. i) (start 2) one_waits
one_waits-Reach =
    later
      (later
        (later
          (later
            (later
              (later
                (later
                  (later (later here (check_space 42 refl (λ e. omega arith)))
                    (store_slot 42 0 1 refl))
                  (publish 42 1 refl))
                (check_data refl (λ e. omega arith)))
              (load_slot 0 refl))
            (release 42 0 refl))
          (check_space 43 refl (λ e. omega arith)))
        (store_slot 43 1 0 refl))
      (publish 43 0 refl)

fifo_example : (rest : List ℕ) × (42 ∷ 43 ∷ [] ≡ 42 ∷ rest) × (length rest < 2)
fifo_example = fifo 1 (λ i. i) (omega arith) (λ i j hi hj e. e) one_waits-Reach
