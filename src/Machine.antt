-- ===== src/Machine.antt =====
-- The device of qemu-patch/hucdev.c, the driver of guestend/driver/huc-driver.c and `recv_bytecode` of
-- guestend/daemon.c at once: messages, interrupts and the daemon's calls of `read` interleave.
pub mod Invariant
pub mod Safety
pub mod Fetch
pub mod Torn
pub mod Late
use huc.Base.{ℕ, ◌+◌, ◌-◌, ◌%◌, ◌^◌, ◌≤◌, ◌≡◌, Bool, true, false, some, List, [], ◌++◌, length, u32}
use huc.Memory.{Memory, store_bytes}
use huc.Memory.Laws.{AllBytes}
use huc.Msg.{Header, header_at, header_bytes, header_size, program_injection}
use huc.Msg.Laws.{Fits}
use huc.Hucdev.{HucState, Effect}
use huc.Hucdev.Cpus.{CpuTable}
use huc.Hucdev.Server.{handle_acceptfd}
use huc.Driver.{Driver, read, returned, not_positive, irq_handler}

-- Where the daemon's process stands: at the `read` of the header, behind `lseek(fd, 16, SEEK_SET)`; in
-- the loop over the payload, with its locals and the offset of the file; or with a message in hand.
pub data Fetching : Type 0 where
  waiting : Fetching
  in_payload : (h : Header) (left : ℕ) (written : List ℕ) (off : ℕ) → Fetching
  fetched : (h : Header) (written : List ℕ) → Fetching

-- `arrived` is a record of what happened: whether a message has come since the daemon last read a
-- header.
pub record Machine : Type 0 where
  pub dev : HucState
  pub driver : Driver
  pub daemon : Fetching
  pub arrived : Bool

module _ (get_cpu : CpuTable) (fuel : ℕ) where
  -- A PROGRAM_INJECTION that comes to the device, the interrupt that the raised line brings, and the
  -- steps of the daemon, whose other calls succeed.
  pub data Step (s : Machine) : Machine → Type 0 where
    arrive :
        (h : Header) (second : List ℕ) (junk : ℕ) (t : HucState) (out : List Effect)
        → AllBytes second
        → Fits h
        → h.type ≡ program_injection
        → length second ≤ h.payload_len
        → h.payload_len ≤ 65516
        → handle_acceptfd get_cpu fuel s.dev (header_bytes h) second junk ≡ some (t, out)
        → Step s (record s { dev = t; arrived = true })
    interrupt :
        (d : Driver) (t : HucState) (out : List Effect)
        → s.dev.irq_line ≡ true
        → irq_handler get_cpu fuel s.driver s.dev true ≡ some ((true, d), t, out)
        → Step s (record s { dev = t; driver = d })
    read_header :
        (stale : Memory) (len : ℕ) (bytes : List ℕ) (d : Driver) (off : ℕ)
        → s.daemon ≡ waiting
        → read s.driver s.dev 16 header_size false false ≡ returned (some len) bytes d off
        → Step s (record s {
          driver = d;
          daemon =
              in_payload
                (header_at (store_bytes stale 0 bytes) 0)
                (header_at (store_bytes stale 0 bytes) 0).payload_len
                []
                20;
          arrived = false;
        })
    read_word :
        (h : Header) (left : ℕ) (written : List ℕ) (off : ℕ) (len : ℕ) (bytes : List ℕ) (d : Driver)
        (off' : ℕ)
        → s.daemon ≡ in_payload h left written off
        → not_positive left ≡ false
        → read s.driver s.dev off 4 false false ≡ returned (some len) bytes d off'
        → Step s (record s {
          driver = d;
          daemon = in_payload h ((left + 2 ^ 32 - u32 len) % 2 ^ 32) (written ++ bytes) off';
        })
    finish :
        (h : Header) (left : ℕ) (written : List ℕ) (off : ℕ)
        → s.daemon ≡ in_payload h left written off
        → not_positive left ≡ true
        → Step s (record s { daemon = fetched h written })
    again :
        (h : Header) (written : List ℕ)
        → s.daemon ≡ fetched h written
        → Step s (record s { daemon = waiting })

  pub data Reach (s : Machine) : Machine → Type 0 where
    here : Reach s s
    next : {t u : Machine} → Reach s t → Step t u → Reach s u
