-- ===== src/Demo.antt =====
-- `testdemo_probe`, `testdemo_pci_remove`, `testdemo_init` and `testdemo_exit` of guestend/driver/testdemo-drv.c, as it is built without
-- TEST_64BIT_MMIO.
pub mod Laws
use huc.Base.{ℕ, Bool, true, false, List, [], ◌∷◌, ◌++◌, if◌then◌else◌}
use huc.Kernel.{
  chrdev_region, cdev, class, device, pci_enabled, pci_region, iomap, chrdev_range, pci_driver,
  Action, take, give_back, ProbeCalls, ProbeResult, probed, einval, one, taking,
}

-- The part of `testdemo_probe` behind `device_create`.
unfoldable pub demo_probe_device : ProbeCalls → List Action × ProbeResult
demo_probe_device c =
    if c.pci_enable_device
    then if c.pci_request_region
      then if c.pci_iomap
        then (take pci_enabled ∷ take pci_region ∷ take iomap ∷ [], probed)
        else (take pci_enabled ∷ take pci_region ∷ [], one)
      else (take pci_enabled ∷ [], one)
    else ([], one)

-- `testdemo_probe(pdev, id)`: what it takes, in order, and what it returns.
unfoldable pub demo_probe : ProbeCalls → List Action × ProbeResult
unfolding demo_probe_device
demo_probe c =
    let numbers = taking c.alloc_chrdev_region chrdev_region ++ taking c.cdev_add cdev in
    let (taken, result) = demo_probe_device c in
    if c.class_create
    then (numbers ++ take class ∷ taking c.device_create device ++ taken, result)
    else (numbers, einval)

-- `testdemo_pci_remove(pdev)`
unfoldable pub demo_pci_remove : List Action
demo_pci_remove =
    give_back device
    ∷ give_back class
    ∷ give_back cdev
    ∷ give_back chrdev_range
    ∷ give_back iomap
    ∷ give_back pci_region
    ∷ []

-- `testdemo_init()`, as `huc_init` of the other driver.
unfoldable pub demo_init : Bool → List Action × ℕ
demo_init true = (take pci_driver ∷ [], 0)
demo_init false = ([], 1)

-- `testdemo_exit()`
unfoldable pub demo_exit : List Action
demo_exit = give_back pci_driver ∷ []
