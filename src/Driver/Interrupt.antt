-- ===== src/Driver/Interrupt.antt =====
-- The interrupt handler and the ioctls, over the device.
use huc.Base.{
  ℕ, ◌^◌, ◌≤◌, ◌<◌, ◌≡◌, ap, ◌∙◌, some, List, [], arith, u32, u64, if◌then◌else◌, true, false,
  bit_of_lt,
}
use huc.Hucdev.{HucState, Effect, lower_irq}
use huc.Hucdev.Irq.{IrqOk, lower_irq-IrqOk, and-complement, irq_status-lower_irq, buf-lower_irq}
use huc.Hucdev.Cpus.{CpuTable, cpu_isset}
use huc.Hucdev.Cpus.Laws.{Vcpus}
use huc.Hucdev.Mmio.{bufmmio_read, bufmmio_write}
use huc.Hucdev.Mmio.Affinity.{Host, granted, mask_after, Distinct, bufmmio_write-set_affinity}
use huc.Driver.{
  Driver, ioread32, iowrite32, ioctl, irq_handler, flag_of_irq, ioctl_sched_setaffinity,
}

module _ (get_cpu : CpuTable) (fuel : ℕ) where
  pub irq_handler_lem :
      (d : Driver) (dev : HucState)
      → dev.irq_status < 2 ^ 32
      → irq_handler get_cpu fuel d dev true
        ≡ some (
          (true, record d { flag = flag_of_irq dev.irq_status d.flag }),
          lower_irq dev dev.irq_status,
          [],
        )
  unfolding irq_handler iowrite32 ioread32 bufmmio_read bufmmio_write
  irq_handler_lem d dev h = ground arith

  -- The acknowledgement is complete: when no message arrives meanwhile, the handler returns
  -- IRQ_HANDLED with the status register zero, the interrupt line low, the buffer unchanged and the
  -- flag chosen by the status that it read.
  pub irq_handler_acks :
      (d : Driver) (dev : HucState)
      → IrqOk dev
      → (dev' : HucState) × (irq_handler get_cpu fuel d dev true
          ≡ some ((true, record d { flag = flag_of_irq dev.irq_status d.flag }), dev', []))
        × (dev'.irq_status ≡ 0)
        × (dev'.irq_line ≡ false)
        × (dev'.buf ≡ dev.buf)
  irq_handler_acks d dev ok = (
    lower_irq dev dev.irq_status,
    irq_handler_lem d dev ok.status_fits,
    clear,
    low,
    buf-lower_irq dev dev.irq_status,
  )
    where
      clear : (lower_irq dev dev.irq_status).irq_status ≡ 0
      clear = irq_status-lower_irq dev dev.irq_status ∙ and-complement dev.irq_status ok.status_fits

      low : (lower_irq dev dev.irq_status).irq_line ≡ false
      low = ground (arith, clear, lower_irq-IrqOk dev.irq_status ok)

-- The daemon's request through the driver and the device, on a machine of `n` vCPUs with distinct
-- threads: of the 64-bit mask in user space only the lower 32 bits arrive. The ioctl returns 0, the
-- device's state is unchanged, the host is asked for exactly those bits for the thread of each vCPU in
-- them, which gets what the host grants and keeps its mask if the host refuses; that of any other
-- vCPU keeps its mask.
pub ioctl-set_affinity :
    {get_cpu : CpuTable} {n : ℕ} {thread : ℕ → ℕ} (v : Vcpus get_cpu n thread) (fuel : ℕ)
    → n < fuel
    → Distinct n thread
    → (host : Host) (dev : HucState) (mask j before : ℕ) → j < n
    → (out : List Effect) × (ioctl get_cpu fuel dev ioctl_sched_setaffinity mask false
        ≡ some (true, dev, out))
      × (mask_after host (thread j) before out
          ≡ (if cpu_isset j (u32 mask) then granted host (thread j) (u32 mask) before else before))
unfolding ioctl iowrite32
ioctl-set_affinity {thread} v fuel lt distinct host dev mask j before lt' =
    let (out, e, gets) =
      bufmmio_write-set_affinity v fuel lt distinct host dev (u32 (u32 mask)) j before lt' in
    (
      out,
      ground (arith, e),
      gets
          ∙ ap (λ m. if cpu_isset j m then granted host (thread j) m before else before)
              {x = u64 (u32 (u32 mask))} {y = u32 mask} (omega arith),
    )

-- A vCPU from 32 on is out of reach: whatever mask the daemon asks for, the ioctl returns 0 and the
-- thread keeps its mask.
ioctl-set_affinity_high :
    {get_cpu : CpuTable} {n : ℕ} {thread : ℕ → ℕ} (v : Vcpus get_cpu n thread) (fuel : ℕ)
    → n < fuel
    → Distinct n thread
    → (host : Host) (dev : HucState) (mask j before : ℕ) → j < n
    → 32 ≤ j
    → (out : List Effect) × (ioctl get_cpu fuel dev ioctl_sched_setaffinity mask false
        ≡ some (true, dev, out))
      × (mask_after host (thread j) before out ≡ before)
ioctl-set_affinity_high v fuel lt distinct host dev mask j before lt' ge =
    let (out, e, gets) = ioctl-set_affinity v fuel lt distinct host dev mask j before lt' in
    (out, e, gets ∙ ground (arith, bit_of_lt 32 (u32 mask) j (omega arith) ge))
