-- ===== src/Hucdev.antt =====
-- The state of the virtual device of qemu-patch/hucdev.c, and its interrupt operations.
pub mod Irq
pub mod Regs
pub mod Cpus
pub mod Mmio
pub mod Server
pub mod Life
use huc.Base.{
  ℕ, ◌-◌, ◌^◌, Bool, true, false, List, ◌==◌, if◌then◌else◌, leb, u32, bit_and, bit_or, not,
}
use huc.Memory.{Memory}

-- A file descriptor is the bit pattern of an `int`; -1 is `no_fd`.
abbrev pub Fd : Type 0
Fd = ℕ

abbrev pub no_fd : Fd
no_fd = 0xffff_ffff

-- `fd < 0`
abbrev pub is_negative : Fd → Bool
is_negative fd = leb (2 ^ 31) fd

-- What `qemu_set_fd_handler` has put on a descriptor.
pub data Handler : Type 0 where
  unwatched : Handler
  listenfd : Handler
  acceptfd : Handler

-- What the device asks of the host beside its own state: a `send` on a socket, and a
-- `sched_setaffinity` of a vCPU thread, whose result the code only prints.
pub data Effect : Type 0 where
  send : Fd → List ℕ → Effect
  sched_setaffinity : ℕ → ℕ → Effect

-- `HucState`. `irq_line` is the level last given to `pci_set_irq`, `handlers` the descriptors that
-- the main loop watches. `buf` is the buffer by bytes, `ioregs` the registers by index.
pub record HucState : Type 0 where
  pub ioregs : ℕ → ℕ
  pub buf : Memory
  pub irq_status : ℕ
  pub irq_line : Bool
  pub hyperthreading_remapping : Bool
  pub listen_fd : Fd
  pub connect_fd : Fd
  pub handlers : Fd → Handler

-- `HUCDEV_BUF_SIZE`, in words
abbrev pub buf_size : ℕ
buf_size = 65536

-- `HUCDEV_REG_END`, in bytes
abbrev pub reg_end : ℕ
reg_end = 92

-- `~val` of a `uint32_t`
abbrev pub complement32 : ℕ → ℕ
complement32 val = 2 ^ 32 - 1 - val

-- `hucdev_raise_irq(hucdev, irq_status)`
unfoldable pub raise_irq : HucState → ℕ → HucState
raise_irq s val =
    let status = bit_or s.irq_status val in
    if status == 0
    then record s { irq_status = status }
    else record s { irq_status = status; irq_line = true }

-- `hucdev_lower_irq(hucdev, val)`
unfoldable pub lower_irq : HucState → ℕ → HucState
lower_irq s val =
    let status = bit_and s.irq_status (complement32 val) in
    if status == 0
    then record s { irq_status = status; irq_line = false }
    else record s { irq_status = status }
