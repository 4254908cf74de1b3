-- ===== src/Driver/Probe.antt =====
-- `huc_probe`, `huc_pci_remove`, `huc_init` and `huc_exit` of guestend/driver/huc-driver.c.
use huc.Base.{ℕ, Bool, true, false, List, [], ◌∷◌, ◌++◌, ◌≡◌, ◌↔◌, if◌then◌else◌, arith, ◌||◌, ◌&&◌}
use huc.Kernel.{
  Resource, chrdev_region, cdev, class, device, pci_enabled, pci_region, iomap, irq, chrdev_range,
  pci_driver, Action, take, give_back, same, held_after, balanced, ProbeCalls, ProbeResult, probed,
  einval, one, taking,
}

-- The part of `huc_probe` behind `device_create`.
unfoldable pub probe_device : ProbeCalls → List Action × ProbeResult
probe_device c =
    if c.pci_enable_device
    then if c.pci_request_region
      then if c.pci_iomap
        then if c.devm_request_irq
          then (take pci_enabled ∷ take pci_region ∷ take iomap ∷ take irq ∷ [], probed)
          else (take pci_enabled ∷ take pci_region ∷ take iomap ∷ [], one)
        else (take pci_enabled ∷ take pci_region ∷ [], one)
      else (take pci_enabled ∷ [], one)
    else ([], one)

-- `huc_probe(pdev, id)`: what it takes, in order, and what it returns. The results of
-- `alloc_chrdev_region`, `cdev_add` and `device_create` are not looked at.
unfoldable pub probe : ProbeCalls → List Action × ProbeResult
unfolding probe_device
probe c =
    let numbers = taking c.alloc_chrdev_region chrdev_region ++ taking c.cdev_add cdev in
    let (taken, result) = probe_device c in
    if c.class_create
    then (numbers ++ take class ∷ taking c.device_create device ++ taken, result)
    else (numbers, einval)

-- `huc_pci_remove(pdev)`
unfoldable pub pci_remove : List Action
pci_remove =
    give_back device
    ∷ give_back class
    ∷ give_back cdev
    ∷ give_back chrdev_region
    ∷ give_back pci_region
    ∷ give_back iomap
    ∷ give_back chrdev_range
    ∷ []

-- `huc_init()`, `registered` saying whether `pci_register_driver` succeeds: what it takes, and the result.
unfoldable pub huc_init : Bool → List Action × ℕ
huc_init true = (take pci_driver ∷ [], 0)
huc_init false = ([], 1)

-- `huc_exit()`
unfoldable pub huc_exit : List Action
huc_exit = give_back pci_driver ∷ []

-- The calls whose results `huc_probe` looks at all succeed.
abbrev pub all_checked : ProbeCalls → Bool
all_checked c =
    c.class_create
    && (c.pci_enable_device && (c.pci_request_region && (c.pci_iomap && c.devm_request_irq)))

-- What was taken before the first checked call that fails.
abbrev pub reached : ProbeCalls → Resource → Bool
reached c Resource.chrdev_region = c.alloc_chrdev_region
reached c Resource.cdev = c.cdev_add
reached c Resource.class = c.class_create
reached c Resource.device = c.class_create && c.device_create
reached c Resource.pci_enabled = c.class_create && c.pci_enable_device
reached c Resource.pci_region = c.class_create && (c.pci_enable_device && c.pci_request_region)
reached c Resource.iomap =
    c.class_create && (c.pci_enable_device && (c.pci_request_region && c.pci_iomap))
reached c Resource.irq = all_checked c
reached c Resource.chrdev_range = false
reached c Resource.pci_driver = false

probe_held : (c : ProbeCalls) (r : Resource) → held_after r false (probe c).0 ≡ reached c r
unfolding probe
probe_held c Resource.chrdev_region = ground arith
probe_held c r = ground arith

probe_removed :
    (c : ProbeCalls) (r : Resource)
    → held_after r false ((probe c).0 ++ pci_remove)
      ≡ (reached c r && (same r pci_enabled || same r irq))
unfolding probe pci_remove
probe_removed c Resource.chrdev_region = ground arith
probe_removed c r = ground arith

-- On every path, also on one that ends in an error, the driver keeps all that it took: `huc_probe`
-- returns 0 exactly if every call that it checks succeeds, and what is held afterwards is each
-- resource whose call was reached and succeeded. No error path gives anything back. `huc_pci_remove`
-- then gives back all of it but the enabled device and the interrupt, which the kernel gives back later.
pub probe_keeps :
    (c : ProbeCalls) (r : Resource)
    → (((probe c).1 ≡ probed) ↔ (all_checked c ≡ true))
      × (held_after r false (probe c).0 ≡ reached c r)
      × (held_after r false ((probe c).0 ++ pci_remove)
          ≡ (reached c r && (same r pci_enabled || same r irq)))
unfolding probe
probe_keeps c r = (ground arith, probe_held c r, probe_removed c r)

-- What `huc_pci_remove` gives back after any run of `huc_probe` is held, exactly if the run reached it;
-- only the numbers of `register_chrdev` never are, and the device and the interrupt it does not touch.
probe-pci_remove-balanced :
    (c : ProbeCalls) (r : Resource)
    → balanced r false ((probe c).0 ++ pci_remove)
      ≡ (reached c r || (same r pci_enabled || (same r irq || same r pci_driver)))
unfolding probe pci_remove
probe-pci_remove-balanced c Resource.chrdev_region = ground arith
probe-pci_remove-balanced c r = ground arith

-- A failed registration is no negative result, so that the module stays loaded; `huc_exit` then
-- unregisters a driver that is not registered.
huc_init-huc_exit :
    (registered : Bool)
    → (held_after pci_driver false ((huc_init registered).0 ++ huc_exit) ≡ false)
      × (balanced pci_driver false ((huc_init registered).0 ++ huc_exit) ≡ registered)
unfolding huc_init huc_exit
huc_init-huc_exit registered = (ground arith, ground arith)
