-- ===== src/Kernel.antt =====
-- What a PCI driver holds of the kernel, as its calls take it and give it back. The kernel's functions
-- are not in the repository: a call is an action, and whether it succeeds is an argument.
use huc.Base.{Bool, true, false, List, [], ◌∷◌, ◌++◌, ◌≡◌, refl, if◌then◌else◌, ◌&&◌}

-- `chrdev_range` is what `register_chrdev` would take and `unregister_chrdev` gives back: the 256
-- minor numbers of a major number, apart from the numbers of `alloc_chrdev_region`. `irq` is taken by
-- `devm_request_irq`, which the kernel gives back by itself once the driver's `remove` has returned. `pci_driver` is taken by `pci_register_driver`
-- when the module is loaded.
pub data Resource : Type 0 where
  chrdev_region cdev class device pci_enabled pci_region iomap irq chrdev_range pci_driver :
      Resource

pub data Action : Type 0 where
  take : Resource → Action
  give_back : Resource → Action

abbrev pub same : Resource → Resource → Bool
same Resource.chrdev_region Resource.chrdev_region = true
same Resource.cdev Resource.cdev = true
same Resource.class Resource.class = true
same Resource.device Resource.device = true
same Resource.pci_enabled Resource.pci_enabled = true
same Resource.pci_region Resource.pci_region = true
same Resource.iomap Resource.iomap = true
same Resource.irq Resource.irq = true
same Resource.chrdev_range Resource.chrdev_range = true
same Resource.pci_driver Resource.pci_driver = true
same a b = false

-- Whether `r` is held after the actions, `held` saying whether it was before.
abbrev pub held_after : Resource → Bool → List Action → Bool
held_after r held [] = held
held_after r held (take q ∷ acts) = held_after r (if same q r then true else held) acts
held_after r held (give_back q ∷ acts) = held_after r (if same q r then false else held) acts

-- Whether `r` is held each time that it is given back.
abbrev pub balanced : Resource → Bool → List Action → Bool
balanced r held [] = true
balanced r held (take q ∷ acts) = balanced r (if same q r then true else held) acts
balanced r held (give_back q ∷ acts) =
    if same q r then held && balanced r false acts else balanced r held acts

pub held_after-append :
    (r : Resource) (held : Bool) (acts bs : List Action)
    → held_after r held (acts ++ bs) ≡ held_after r (held_after r held acts) bs
held_after-append r held [] bs = refl
held_after-append r held (take q ∷ acts) bs =
    held_after-append r (if same q r then true else held) acts bs
held_after-append r held (give_back q ∷ acts) bs =
    held_after-append r (if same q r then false else held) acts bs

-- How the calls of a driver's `probe` turn out.
pub record ProbeCalls : Type 0 where
  pub alloc_chrdev_region : Bool
  pub cdev_add : Bool
  pub class_create : Bool
  pub device_create : Bool
  pub pci_enable_device : Bool
  pub pci_request_region : Bool
  pub pci_iomap : Bool
  pub devm_request_irq : Bool

-- What `probe` returns: 0, `-EINVAL`, or 1.
pub data ProbeResult : Type 0 where
  probed : ProbeResult
  einval : ProbeResult
  one : ProbeResult

-- A call that takes a resource, if it succeeds.
abbrev pub taking : Bool → Resource → List Action
taking true r = take r ∷ []
taking false r = []
