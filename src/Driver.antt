-- ===== src/Driver.antt =====
-- The guest driver of guestend/driver/huc-driver.c: its globals `flag` and `payload_left`, and its
-- file and interrupt operations over the device's buffer window.
pub mod Interrupt
pub mod Window
pub mod Probe
use huc.Base.{
  ℕ, ◌+◌, ◌-◌, ◌*◌, ◌/◌, ◌%◌, ◌^◌, Bool, true, false, not, ◌||◌, ◌&&◌, Option, none, some, List, [],
  ◌∷◌, ◌==◌, if◌then◌else◌, leb, u32,
}
use huc.Memory.{word_bytes}
use huc.Msg.{program_injection, program_injection_affinity}
use huc.Hucdev.{HucState, Effect}
use huc.Hucdev.Cpus.{CpuTable}
use huc.Hucdev.Mmio.{bufmmio_read, bufmmio_write}

-- `flag` is 0 when there is nothing to read, 2 when a header is next, 1 when payload is next.
-- `payload_left` is the bit pattern of an `int`.
pub record Driver : Type 0 where
  pub flag : ℕ
  pub payload_left : ℕ

-- `ioread32(bufmmio + off)`: a trapped access of four bytes.
unfoldable pub ioread32 : HucState → ℕ → ℕ
ioread32 dev off = u32 (bufmmio_read dev off 4)

-- What a call of `read` makes of the driver. `asleep` waits on `wq`; `returned` has the value
-- (`none` is -EFAULT), the bytes that reached user space, the new globals and the new offset.
pub data ReadResult : Type 0 where
  asleep : ReadResult
  returned : Option ℕ → List ℕ → Driver → ℕ → ReadResult

-- `x <= 0` of an `int`
abbrev pub not_positive : ℕ → Bool
not_positive x = x == 0 || leb (2 ^ 31) x

-- `payload_left -= len`, and `flag = 0` at the end of the payload
unfoldable pub consume : Driver → ℕ → Driver
consume d len =
    let left = (d.payload_left + 2 ^ 32 - u32 len) % 2 ^ 32 in
    if not_positive left
    then record { flag = 0; payload_left = left }
    else record d { payload_left = left }

-- What reading the word `kbuf` does to the globals; the length of a header is its upper half.
unfoldable pub take_word : Driver → ℕ → ℕ → Driver
unfolding consume
take_word d kbuf len =
    if d.flag == 2
    then record { flag = 1; payload_left = kbuf / 65536 % 65536 }
    else if d.flag == 1
    then consume d len
    else d

-- `huc_read(filp, buf, len, off)`. `signalled` says whether a signal ends the wait, whose result
-- the code ignores; `faults` whether `copy_to_user` fails.
unfoldable pub read : Driver → HucState → ℕ → ℕ → Bool → Bool → ReadResult
unfolding take_word
read d dev off len signalled faults =
    let kbuf = ioread32 dev off in
    if d.flag == 0 && not signalled
    then asleep
    else if not (off % 4 == 0) || len == 0
    then returned (some 0) [] d off
    else if faults
    then returned none [] (take_word d kbuf len) off
    else returned (some len) (word_bytes kbuf) (take_word d kbuf len) (off + 4)

abbrev pub ioctl_sched_setaffinity : ℕ
ioctl_sched_setaffinity = 13

abbrev pub ioctl_program_injection_result_ready : ℕ
ioctl_program_injection_result_ready = 14

-- What a write to the device leads to: the result, the device and its requests to the host.
abbrev pub Answer : Type 0 → Type 0
Answer A = Option (A × HucState × List Effect)

-- The `switch` of `irq_handler`: the new `flag`.
abbrev pub flag_of_irq : ℕ → ℕ → ℕ
flag_of_irq status flag =
    if status == program_injection
    then 2
    else if status == program_injection_affinity
    then 2
    else if status == 22
    then 1
    else flag

module _ (get_cpu : CpuTable) (fuel : ℕ) where
  -- `iowrite32(val, bufmmio + off)`, followed by a `return r`
  unfoldable pub iowrite32 : {A : Type 0} → HucState → ℕ → ℕ → A → Answer A
  iowrite32 dev val off r = elim (bufmmio_write get_cpu fuel dev off (u32 val) 4) [
    | none ↦ none
    | some (dev', out) ↦ some (r, dev', out)
  ]

  -- `huc_ioctl(file, cmd, arg)`. `arg` is the number at the user's address, of which `sizeof(int)`
  -- bytes are copied; `faults` says whether the copy fails. The result is `true` for 0 and `false`
  -- for -EACCES.
  unfoldable pub ioctl : HucState → ℕ → ℕ → Bool → Answer Bool
  ioctl dev cmd arg faults =
      if cmd == ioctl_program_injection_result_ready
      then iowrite32 dev 1 8 true
      else if cmd == ioctl_sched_setaffinity
      then if faults then some (false, dev, []) else iowrite32 dev (u32 arg) 12 true
      else some (true, dev, [])

  -- `irq_handler(irq, dev)`, `mine` being `n == major`. The result is `true` for IRQ_HANDLED.
  unfoldable pub irq_handler : Driver → HucState → Bool → Answer (Bool × Driver)
  irq_handler d dev mine =
      let status = ioread32 dev 0 in
      if mine
      then iowrite32 dev status 4 (true, record d { flag = flag_of_irq status d.flag })
      else some ((false, d), dev, [])
