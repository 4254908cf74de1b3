-- ===== src/Spscq/Fifo.antt =====
-- The queue is first in, first out, whatever the interleaving.
use huc.Base.{
  ℕ, ◌^◌, ◌≤◌, ◌<◌, ◌≡◌, refl, ap, ◌∙◌, sym, List, ◌++◌, arith, length, drop, take,
  take-append-drop, length-drop, length-take, get_or_ext, get_or-take,
}
use mathlib.Core.Path.{subst}
use native.Mathlib.Nat.{one-le-pow, zero-mod}
use huc.Spscq.Steps.{
  System, Step, full, check_space, store_slot, publish, empty, check_data, load_slot, release,
  Reach, here, later, start,
}
use huc.Spscq.Invariant.{Injective, len, ProducerOk, ConsumerOk, Inv, check_space-Inv}
use huc.Spscq.Preserve.{store_slot-Inv, publish-Inv, check_data-Inv, load_slot-Inv, release-Inv}

module _ (k : ℕ) (smap : ℕ → ℕ) (small : k ≤ 31) (injective : Injective (len k smap) smap) where
  -- Each step of either thread keeps the invariant.
  pub Step-Inv : {s t : System} → Step smap s t → Inv k smap s → Inv k smap t
  Step-Inv (full at e) q = q
  Step-Inv {s} (check_space m at ne) q = check_space-Inv k smap small injective s m ne q
  Step-Inv {s} (store_slot m write next at) q =
      store_slot-Inv k smap small injective s m write next
        (subst (ProducerOk k smap _ _ s.queue.slots) at q.producer_ok) q
  Step-Inv {s} (publish m next at) q =
      publish-Inv k smap small injective s m next
        (subst (ProducerOk k smap _ _ s.queue.slots) at q.producer_ok) q
  Step-Inv (empty at e) q = q
  Step-Inv {s} (check_data at ne) q = check_data-Inv k smap small injective s ne q
  Step-Inv {s} (load_slot read at) q =
      load_slot-Inv k smap small injective s read (subst (ConsumerOk k smap _ _ _) at q.consumer_ok)
        q
  Step-Inv {s} (release m read at) q =
      release-Inv k smap small injective s m read (subst (ConsumerOk k smap _ _ _) at q.consumer_ok)
        q

  start-Inv : Inv k smap (start (len k smap))
  start-Inv = record {
    mask = refl;
    write_at = sym (zero-mod _);
    read_at = sym (zero-mod _);
    behind = omega arith;
    room = omega (arith, one-le-pow k 2 (omega arith));
    order = λ j lt. refl;
    held = λ j le lt. absurd (omega arith);
    producer_ok = tt;
    consumer_ok = tt;
  }

  pub Reach-Inv : {s : System} → Reach smap (start (len k smap)) s → Inv k smap s
  Reach-Inv here = start-Inv
  Reach-Inv (later r st) = Step-Inv st (Reach-Inv r)

  -- A queue of `2 ^ k` slots, `k` at most 31, used in any order that sends different indices to
  -- different slots. In every state that the two threads reach, under every interleaving of their
  -- accesses, the values sent are the values received, in order, followed by fewer than `2 ^ k`
  -- values still in the queue: none is lost, doubled, reordered or overwritten.
  pub fifo :
      {s : System}
      → Reach smap (start (len k smap)) s
      → (rest : List ℕ) × (s.sent ≡ s.received ++ rest) × (length rest < 2 ^ k)
  fifo {s} r = (
    drop (length s.received) s.sent,
    sym (take-append-drop (length s.received) s.sent)
        ∙ ap (λ t. t ++ drop (length s.received) s.sent) (sym front),
    omega (
      arith,
      length-drop (length s.received) s.sent,
      q.room,
      q.behind,
      one-le-pow k 2 (omega arith),
    ),
  )
    where
      q : Inv k smap s
      q = Reach-Inv r

      front : s.received ≡ take (length s.received) s.sent
      front =
          get_or_ext 0 _ _ (omega (arith, length-take (length s.received) s.sent, q.behind))
            (λ i lt. q.order i lt ∙ sym (get_or-take 0 (length s.received) s.sent i lt))
