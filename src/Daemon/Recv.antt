-- ===== src/Daemon/Recv.antt =====
-- `recv_bytecode` of guestend/daemon.c: a message fetched through the driver, four bytes at a time.
pub mod Loop
pub mod Whole
use huc.Base.{
  ℕ, zero, suc, ◌+◌, ◌-◌, ◌%◌, ◌^◌, Bool, true, false, Option, none, some, List, [], ◌++◌,
  if◌then◌else◌, u32,
}
use huc.Memory.{Memory, store_bytes}
use huc.Msg.{Header, header_at, header_size}
use huc.Hucdev.{HucState}
use huc.Driver.{Driver, ReadResult, asleep, returned, not_positive, read}

-- How the calls of one fetch turn out. `signalled` and `faults` are those of `read`, by offset.
pub record Calls : Type 0 where
  pub seek_header : Bool
  pub seek_payload : Bool
  pub malloc : Bool
  pub signalled : ℕ → Bool
  pub faults : ℕ → Bool

-- How a fetch ends. `received` has the header, the bytes that were written from the start of the
-- allocated payload on, and the driver with its file offset. After `failed` the message is
-- not to be used; `blocked` waits in the driver; `unfinished` means that the fuel ran out.
pub data Fetch : Type 0 where
  received : Header → List ℕ → Driver → ℕ → Fetch
  failed : Driver → ℕ → Fetch
  blocked : Fetch
  unfinished : Fetch

module _ (c : Calls) (dev : HucState) where
  -- `while (payload_left > 0) { len = read(fd, mymsg.payload + offset, 4); … }`
  unfoldable pub recv_payload : Header → ℕ → ℕ → List ℕ → Driver → ℕ → Fetch
  recv_payload h zero left written d off = unfinished
  recv_payload h (suc fuel) left written d off = elim (not_positive left) [
    | true ↦ received h written d off
    | false ↦ elim (read d dev off 4 (c.signalled off) (c.faults off)) [
      | asleep ↦ blocked
      | returned none bytes d' off' ↦ failed d' off'
      | returned (some len) bytes d' off' ↦
          recv_payload h fuel ((left + 2 ^ 32 - u32 len) % 2 ^ 32) (written ++ bytes) d' off'
    ]
  ]

  -- What follows the read of the header.
  unfoldable pub recv_rest : ℕ → Header → Driver → ℕ → Fetch
  recv_rest fuel h d off =
      if c.malloc
      then if c.seek_payload then recv_payload h fuel h.payload_len [] d 20 else failed d off
      else failed d off

  -- `recv_bytecode(fd)`. `stale` is what the uninitialised message holds.
  unfoldable pub recv_bytecode : ℕ → Memory → Driver → ℕ → Fetch
  recv_bytecode fuel stale d off =
      if c.seek_header
      then elim (read d dev 16 header_size (c.signalled 16) (c.faults 16)) [
        | asleep ↦ blocked
        | returned none bytes d' off' ↦ failed d' off'
        | returned (some len) bytes d' off' ↦
            recv_rest fuel (header_at (store_bytes stale 0 bytes) 0) d' off'
      ]
      else failed d off
