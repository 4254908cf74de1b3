-- ===== src/Tests/Kernel.antt =====
-- The driver's probe function when the last call fails.
use huc.Base.{◌≡◌, ◌↔◌, true, false, ◌++◌}
use huc.Kernel.{ProbeCalls, probed, held_after, pci_enabled}
use huc.Driver.Probe.{probe, pci_remove, probe_keeps}

abbrev irq_fails : ProbeCalls
irq_fails = record {
  alloc_chrdev_region = true;
  cdev_add = true;
  class_create = true;
  device_create = true;
  pci_enable_device = true;
  pci_request_region = true;
  pci_iomap = true;
  devm_request_irq = false;
}

probe_keeps_example :
    (((probe irq_fails).1 ≡ probed) ↔ (false ≡ true))
    × (held_after pci_enabled false (probe irq_fails).0 ≡ true)
    × (held_after pci_enabled false ((probe irq_fails).0 ++ pci_remove) ≡ true)
probe_keeps_example = probe_keeps irq_fails pci_enabled
