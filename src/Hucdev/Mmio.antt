-- ===== src/Hucdev/Mmio.antt =====
-- The buffer window of qemu-patch/hucdev.c: `hucdev_bufmmio_read` and `hucdev_bufmmio_write`.
pub mod Laws
pub mod Affinity
use huc.Base.{
  ℕ, ◌+◌, ◌*◌, ◌/◌, ◌%◌, Bool, Option, none, some, List, [], ◌∷◌, ◌==◌, if◌then◌else◌, ltb, u32,
  u64,
}
use huc.Memory.{load_bytes, load32, store32}
use huc.Msg.{Header, header_at, header_size}
use huc.Hucdev.{HucState, Effect, send, sched_setaffinity, buf_size, raise_irq, lower_irq}
use huc.Hucdev.Cpus.{CpuTable, for_each_cpu, pin_in_mask}

-- A message lies at word 4 of the buffer, its payload behind the header.
abbrev pub header_offset : ℕ
header_offset = 16

abbrev pub payload_offset : ℕ
payload_offset = 20

-- `addr + size > HUCDEV_BUF_SIZE * sizeof(uint32_t)`, on the masked address
abbrev pub out_of_bounds : ℕ → ℕ → Bool
out_of_bounds addr size = ltb (buf_size * 4) (addr % 65536 + size)

-- `hucdev_bufmmio_read(opaque, addr, size)`; the mask `HUCDEV_BUF_MASK` is `% 65536`.
unfoldable pub bufmmio_read : HucState → ℕ → ℕ → ℕ
bufmmio_read s addr size =
    let index = addr % 65536 / 4 in
    if out_of_bounds addr size
    then 0
    else if index == 0
    then s.irq_status
    else load32 s.buf (index * 4)

-- The doorbell: the guest's answer goes to the client, and the doorbell word is cleared.
unfoldable pub doorbell : HucState → HucState × List Effect
doorbell s =
    let len = (header_at s.buf header_offset).payload_len in
    (
      record s { buf = store32 s.buf 8 0 },
      send s.connect_fd (load_bytes s.buf header_offset header_size)
          ∷ send s.connect_fd (load_bytes s.buf payload_offset len)
          ∷ [],
    )

module _ (get_cpu : CpuTable) (fuel : ℕ) where
  -- Register 3: each vCPU in the mask is bound to the mask.
  unfoldable pub set_affinity : HucState → ℕ → Option (HucState × List Effect)
  set_affinity s val = elim (for_each_cpu get_cpu (pin_in_mask (u64 val)) fuel 0) [
    | none ↦ none
    | some (out, n) ↦ some (s, out)
  ]

  -- `hucdev_bufmmio_write(opaque, addr, val, size)`. `none` means that the vCPU loop ran out of
  -- fuel.
  unfoldable pub bufmmio_write : HucState → ℕ → ℕ → ℕ → Option (HucState × List Effect)
  bufmmio_write s addr val size =
      let index = addr % 65536 / 4 in
      if out_of_bounds addr size
      then some (s, [])
      else if index == 0
      then some (raise_irq s (u32 val), [])
      else if index == 1
      then some (lower_irq s (u32 val), [])
      else if index == 2
      then some (doorbell s)
      else if index == 3
      then set_affinity s val
      else some (record s { buf = store32 s.buf (index * 4) val }, [])
