-- ===== src/Demo/Laws.antt =====
-- What the demonstration driver leaves behind.
use huc.Base.{Bool, false, ◌++◌, ◌≡◌, ◌||◌, ◌&&◌, arith}
use huc.Kernel.{
  Resource, chrdev_region, pci_enabled, same, held_after, balanced, pci_driver, ProbeCalls, probed,
}
use huc.Demo.{demo_probe, demo_pci_remove, demo_init, demo_exit}

-- After a `testdemo_probe` that returned 0, `testdemo_pci_remove` gives back all that was taken but the
-- enabled device and, if `alloc_chrdev_region` had succeeded, the device number: `unregister_chrdev` is
-- not its counterpart.
demo_probe-demo_pci_remove :
    (c : ProbeCalls) (r : Resource)
    → (demo_probe c).1 ≡ probed
    → held_after r false ((demo_probe c).0 ++ demo_pci_remove)
      ≡ (same r pci_enabled || (same r chrdev_region && c.alloc_chrdev_region))
unfolding demo_probe demo_pci_remove
demo_probe-demo_pci_remove c Resource.chrdev_region e = ground arith
demo_probe-demo_pci_remove c r e = ground arith

-- From `testdemo_init` to `testdemo_exit` the driver does not stay registered, and what `testdemo_exit`
-- unregisters was registered exactly if `pci_register_driver` succeeded.
demo_init-demo_exit :
    (registered : Bool)
    → (held_after pci_driver false ((demo_init registered).0 ++ demo_exit) ≡ false)
      × (balanced pci_driver false ((demo_init registered).0 ++ demo_exit) ≡ registered)
unfolding demo_init demo_exit
demo_init-demo_exit registered = (ground arith, ground arith)
