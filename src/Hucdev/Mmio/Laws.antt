-- ===== src/Hucdev/Mmio/Laws.antt =====
-- Reads and writes of the buffer window on every branch.
use huc.Base.{
  ℕ, ◌+◌, ◌*◌, ◌/◌, ◌%◌, ◌≤◌, ◌<◌, ◌≡◌, ◌≢◌, refl, Option, none, some, List, [], u64, arith, u32,
  ◌==◌, if◌then◌else◌, false,
}
use huc.Memory.{store32}
use huc.Memory.Laws.{load32-store32, load32-store32_outside}
use huc.Hucdev.{HucState, Effect, buf_size}
use huc.Hucdev.Irq.{IrqOk, raise_irq-IrqOk, lower_irq-IrqOk}
use huc.Hucdev.Cpus.{CpuTable, pin_in_mask}
use huc.Hucdev.Cpus.Laws.{Vcpus, for_each_cpu-rounds}
use huc.Hucdev.Mmio.{bufmmio_read, bufmmio_write, doorbell, set_affinity, out_of_bounds}

-- The range check never fires on an access of at most four bytes, and the word that the access
-- touches lies in the first quarter of the buffer: the mask keeps the rest out of reach.
in_window :
    (addr size : ℕ)
    → size ≤ 4
    → (out_of_bounds addr size ≡ false) × (addr % 65536 / 4 * 4 + 4 ≤ buf_size)
in_window addr size h = ground arith

module _ (get_cpu : CpuTable) (fuel : ℕ) where
  bufmmio_read_written :
      (s : HucState) (a b val size : ℕ) {t : HucState} {out : List Effect}
      → size ≤ 4
      → 16 ≤ a % 65536
      → 16 ≤ b % 65536
      → bufmmio_write get_cpu fuel s a val size ≡ some (t, out)
      → bufmmio_read t b size
        ≡ (if a % 65536 / 4 == b % 65536 / 4 then u32 val else bufmmio_read s b size)
  unfolding bufmmio_write bufmmio_read
  bufmmio_read_written s a b val size le ha hb e = ground (
    arith,
    load32-store32 s.buf (a % 65536 / 4 * 4) val,
    load32-store32_outside s.buf (a % 65536 / 4 * 4) val (b % 65536 / 4 * 4),
  )

  -- A write of at most four bytes to a data word (from word 4 of the window on) returns and asks the
  -- host for nothing; the word is read back as it was written, cut to 32 bits, and every other data
  -- word keeps its value.
  pub bufmmio_read-bufmmio_write :
      (s : HucState) (a b val size : ℕ)
      → size ≤ 4
      → 16 ≤ a % 65536
      → 16 ≤ b % 65536
      → (t : HucState) × (bufmmio_write get_cpu fuel s a val size ≡ some (t, []))
        × (bufmmio_read t b size
            ≡ (if a % 65536 / 4 == b % 65536 / 4 then u32 val else bufmmio_read s b size))
  unfolding bufmmio_write
  bufmmio_read-bufmmio_write s a b val size le ha hb =
      let t : HucState = record s { buf = store32 s.buf (a % 65536 / 4 * 4) val } in
      let e : bufmmio_write get_cpu fuel s a val size ≡ some (t, []) = ground arith in
      (t, e, bufmmio_read_written s a b val size le ha hb e)

  bufmmio_write_result :
      {s t : HucState} {out : List Effect} (addr val size : ℕ)
      → IrqOk s
      → bufmmio_write get_cpu fuel s addr val size ≡ some (t, out)
      → IrqOk t
  unfolding bufmmio_write doorbell set_affinity
  bufmmio_write_result {s} addr val size ok e =
      ground (arith, raise_irq-IrqOk (u32 val) (omega arith) ok, lower_irq-IrqOk (u32 val) ok)

-- What is not `none` is a result.
pub result_of : {A : Type 0} (x : Option A) → x ≢ none → (a : A) × (x ≡ some a)
result_of none ne = absurd (ne refl)
result_of (some a) ne = (a, refl)

module _ {get_cpu : CpuTable} {n : ℕ} {thread : ℕ → ℕ} (v : Vcpus get_cpu n thread) (fuel : ℕ)
    (enough : n < fuel) where
  bufmmio_write_ends :
      (s : HucState) (addr val size : ℕ) → bufmmio_write get_cpu fuel s addr val size ≢ none
  unfolding bufmmio_write doorbell set_affinity
  bufmmio_write_ends s addr val size =
      let loop = for_each_cpu-rounds v (pin_in_mask (u64 val)) n 0 fuel (omega arith) enough in
      λ e. ground (arith, loop)

  -- Every write, with any address, value and size, returns, and keeps the interrupt line in step with
  -- the status.
  pub bufmmio_write-IrqOk :
      (s : HucState) (addr val size : ℕ)
      → IrqOk s
      → (t : HucState) × (out : List Effect) × (bufmmio_write get_cpu fuel s addr val size
          ≡ some (t, out))
        × IrqOk t
  bufmmio_write-IrqOk s addr val size ok =
      let ((t, out), e) = result_of _ (bufmmio_write_ends s addr val size) in
      (t, out, e, bufmmio_write_result get_cpu fuel addr val size ok e)
