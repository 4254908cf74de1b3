-- ===== src/Spscq/Invariant.antt =====
-- What ties the ring's indices and slots to the values that were sent and received.
use huc.Base.{
  ℕ, ◌+◌, ◌-◌, ◌%◌, ◌^◌, ◌≤◌, ◌<◌, ◌≡◌, ◌≢◌, ap, ◌∙◌, sym, List, arith, bit_and, u32, length,
  get_or, if◌then◌else◌, ==-false, ℕ_discrete,
}
use native.Mathlib.Nat.{one-le-pow, mod-lt, add-mod_right}
use huc.Spscq.{next_index, set_slot}
use huc.Spscq.Index.{next_mod, mod_ne}
use huc.Spscq.Steps.{Producer, has_space, stored, Consumer, has_data, loaded, System}

-- `SMAP` sends different indices below the length to different slots.
abbrev pub Injective : ℕ → (ℕ → ℕ) → Type 0
Injective l smap = (i j : ℕ) → i < l → j < l → smap i ≡ smap j → i ≡ j

module _ (k : ℕ) (smap : ℕ → ℕ) where
  abbrev pub len : ℕ
  len = 2 ^ k

  -- What the locals of the producer mean, when `w` values are sent and `r` received.
  abbrev pub ProducerOk : ℕ → ℕ → (ℕ → ℕ) → Producer → Type 0
  ProducerOk w r slots Producer.outside = Unit
  ProducerOk w r slots (has_space m write next) =
      (write ≡ w % len) × (next ≡ (w + 1) % len) × (w + 1 < r + len)
  ProducerOk w r slots (stored m next) =
      (next ≡ (w + 1) % len) × (w + 1 < r + len) × (slots (smap (w % len)) ≡ m)

  -- What the locals of the consumer mean.
  abbrev pub ConsumerOk : ℕ → ℕ → List ℕ → Consumer → Type 0
  ConsumerOk w r sent Consumer.outside = Unit
  ConsumerOk w r sent (has_data read) = (read ≡ r % len) × (r < w)
  ConsumerOk w r sent (loaded m read) = (read ≡ r % len) × (r < w) × (m ≡ get_or sent r 0)

  pub record Inv (s : System) : Type 0 where
    pub mask : s.queue.qmask ≡ len - 1
    pub write_at : s.queue.write ≡ length s.sent % len
    pub read_at : s.queue.read ≡ length s.received % len
    pub behind : length s.received ≤ length s.sent
    pub room : length s.sent < length s.received + len
    pub order : (j : ℕ) → j < length s.received → get_or s.received j 0 ≡ get_or s.sent j 0
    pub held :
        (j : ℕ)
        → length s.received ≤ j
        → j < length s.sent
        → s.queue.slots (smap (j % len)) ≡ get_or s.sent j 0
    pub producer_ok : ProducerOk (length s.sent) (length s.received) s.queue.slots s.producer
    pub consumer_ok : ConsumerOk (length s.sent) (length s.received) s.sent s.consumer

  module _ (small : k ≤ 31) (injective : Injective len smap) where
    pos : 0 < len
    pos = one-le-pow k 2 (omega arith)

    pub next_lem : (s : System) (n : ℕ) → Inv s → next_index s.queue (n % len) ≡ (n + 1) % len
    next_lem s n q = ap (bit_and (u32 (n % len + 1))) q.mask ∙ next_mod k n small

    -- A slot in use is not the slot that the producer stores to.
    pub slot_apart :
        (slots : ℕ → ℕ) (w r j m : ℕ)
        → r ≤ j
        → j < w
        → w < r + len
        → set_slot slots (smap (w % len)) m (smap (j % len)) ≡ slots (smap (j % len))
    slot_apart slots w r j m le lt near =
        ap (λ t. if t then m else slots (smap (j % len))) (==-false _ _ apart)
      where
        apart : smap (w % len) ≢ smap (j % len)
        apart e =
            mod_ne len j w lt (omega arith)
              (sym (injective (w % len) (j % len) (mod-lt w pos) (mod-lt j pos) e))

    pub check_space-Inv :
        (s : System) (m : ℕ)
        → next_index s.queue s.queue.write ≢ s.queue.read
        → Inv s
        → Inv (record s { producer = has_space m s.queue.write (next_index s.queue s.queue.write) })
    check_space-Inv s m ne q = record {
      mask = q.mask;
      write_at = q.write_at;
      read_at = q.read_at;
      behind = q.behind;
      room = q.room;
      order = q.order;
      held = q.held;
      producer_ok = (q.write_at, next, free);
      consumer_ok = q.consumer_ok;
    }
      where
        next : next_index s.queue s.queue.write ≡ (length s.sent + 1) % len
        next = ap (next_index s.queue) q.write_at ∙ next_lem s (length s.sent) q

        free : length s.sent + 1 < length s.received + len
        free = elim (ℕ_discrete (length s.sent + 1) (length s.received + len)) [
          | yes e ↦ absurd (
              ne (
                next ∙ ap (λ t. t % len) e ∙ add-mod_right (length s.received) len ∙ sym q.read_at))
          | no ne' ↦ omega (arith, q.room)
        ]
