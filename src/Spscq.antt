-- ===== src/Spscq.antt =====
-- The Lamport queue of guestend/simplified-spscq/spscq.h, between one producer and one consumer.
pub mod Init
pub mod Steps
pub mod Index
pub mod Invariant
pub mod Preserve
pub mod Fifo
pub mod Whole
pub mod Drain
pub mod Refine
pub mod Slots
pub mod Bench
pub mod Ilog2
use huc.Base.{
  ℕ, ◌+◌, ◌-◌, ◌*◌, ◌^◌, Bool, true, false, not, ◌||◌, Option, none, some, ◌==◌, if◌then◌else◌, ltb,
  bit_and, u32,
}

-- `struct Blq`, without the padding and the four private fields, which the `lq_` operations never
-- touch. The slots are a function of the index.
pub record Blq : Type 0 where
  pub write : ℕ
  pub read : ℕ
  pub qlen : ℕ
  pub qmask : ℕ
  pub slots : ℕ → ℕ

-- `is_power_of_two(x)`
unfoldable pub is_power_of_two : ℕ → Bool
is_power_of_two x = x == 0 || bit_and x (x - 1) == 0

-- `blq_init(blq, qlen)`: `none` is the result -1, which leaves the queue alone.
unfoldable pub init : Blq → ℕ → Option Blq
unfolding is_power_of_two
init q qlen =
    if ltb qlen 2 || not (is_power_of_two qlen)
    then none
    else some (record q { qlen = qlen; qmask = qlen - 1 })

-- `SPSCQ_ALIGNED_SIZE(sz)`, in 64-bit arithmetic
unfoldable pub aligned_size : ℕ → ℕ
aligned_size sz = bit_and (sz + 127) (2 ^ 64 - 128)

-- `blq_size(qlen)`; the fixed part of the structure takes five lines of 128 bytes.
unfoldable pub blq_size : ℕ → ℕ
unfolding aligned_size
blq_size qlen = aligned_size (640 + qlen * 8)

-- The index behind `i`, `(i + 1) & q->qmask` of an `unsigned`.
abbrev pub next_index : Blq → ℕ → ℕ
next_index q i = bit_and (u32 (i + 1)) q.qmask

abbrev pub set_slot : (ℕ → ℕ) → ℕ → ℕ → ℕ → ℕ
set_slot slots i v j = if i == j then v else slots j

-- `smap` is `SMAP`, the order in which the slots are used.
module _ (smap : ℕ → ℕ) where
  -- `lq_write(q, m)`: `none` is the result -1, no space.
  unfoldable pub lq_write : Blq → ℕ → Option Blq
  lq_write q m =
      if next_index q q.write == q.read
      then none
      else some
          (record q { slots = set_slot q.slots (smap q.write) m; write = next_index q q.write })

  -- `lq_read(q)`: the value, 0 for an empty queue, and the queue after it.
  unfoldable pub lq_read : Blq → ℕ × Blq
  lq_read q =
      if q.read == q.write
      then (0, q)
      else (q.slots (smap q.read), record q { read = next_index q q.read })
