-- ===== src/Tests/Device.antt =====
-- A message's way, and the device's operations, on the concrete machine.
use huc.Base.{◌+◌, ◌≡◌, some, [], arith, bit, min}
use huc.Hucdev.{HucState, raise_irq, lower_irq}
use huc.Hucdev.Irq.{ack-raise}
use huc.Hucdev.Mmio.{bufmmio_read, bufmmio_write}
use huc.Hucdev.Mmio.Laws.{bufmmio_read-bufmmio_write}
use huc.Tests.Data.{two_cpus, idle_device, six_device}

ack-raise_example :
    bit (lower_irq (raise_irq six_device 3) 1).irq_status 0 + min (bit 3 0) (bit 1 0) ≡ bit 3 0
ack-raise_example = ack-raise six_device 3 0 (omega arith) (omega arith)

-- Word 5 is written and read through an address 64 KiB further.
bufmmio_read-bufmmio_write_example :
    (t : HucState) × (bufmmio_write two_cpus 3 idle_device 20 77 4 ≡ some (t, []))
    × (bufmmio_read t 65556 4 ≡ 77)
bufmmio_read-bufmmio_write_example =
    bufmmio_read-bufmmio_write two_cpus 3 idle_device 20 65556 77 4 (omega arith) (omega arith)
      (omega arith)
