-- ===== src/Pipeline/Tool.antt =====
-- A file on the host, sent by `injectByteCode`, becomes the file that the daemon saves in the guest.
use huc.Base.{ℕ, ◌≤◌, ◌<◌, ◌≡◌, some, List, [], ◌∷◌, arith, true, false, length}
use huc.Memory.{Memory}
use huc.Memory.Laws.{Bytes, AllBytes}
use huc.Msg.{Header, HostFile, header_bytes}
use huc.Hucdev.{HucState}
use huc.Hucdev.Irq.{IrqOk}
use huc.Hucdev.Cpus.{CpuTable}
use huc.Hucdev.Cpus.Laws.{Vcpus}
use huc.Hucdev.Server.{handle_acceptfd}
use huc.Driver.{Driver, irq_handler}
use huc.Daemon.Recv.{Calls, received, recv_bytecode}
use huc.Daemon.Recv.Loop.{Calm}
use huc.Client.{bytes, success, Net, byte_code_port, inject_byte_code}
use huc.Client.Send.{Online, inject_byte_code-sends_whole}
use huc.Files.{FileCalls, save_bytecode}
use huc.Pipeline.{injection_delivered}

-- The whole way of a program. A file of 1 to 65516 bytes that can be read is given to
-- `injectByteCode`, online at its port and with memory; its two sends reach an idle device as one `recv`
-- each; the daemon is calm. Then the device stores the message and raises the interrupt line, the
-- driver's handler acknowledges the interrupt and lets the line fall, the daemon's fetch ends, and
-- `save_bytecode`, if its calls succeed, leaves the guest with a file that has the contents of the
-- host's.
pub file_delivered :
    {get_cpu : CpuTable} {n : ℕ} {thread : ℕ → ℕ} (v : Vcpus get_cpu n thread) (fuel : ℕ)
    → n < fuel
    → {c : Calls} (calm : Calm c) (f : HostFile) (argc garbage : ℕ) (net : Net) (s : HucState)
      (junk : ℕ) (stale : Memory) (d : Driver) (off rounds : ℕ) (calls : FileCalls)
    → 2 ≤ argc
    → Online net byte_code_port
    → AllBytes f.contents
    → 0 < length f.contents
    → length f.contents ≤ 65516
    → length f.contents ≤ f.readable
    → IrqOk s
    → s.irq_status ≡ 0
    → Bytes s.buf
    → length f.contents < rounds
    → calls.fopen ≡ true
    → calls.written ≡ length f.contents
    → calls.fclose ≡ true
    → (first second : List ℕ) × (t t' : HucState) × (d' : Driver) × (h : Header) × (written : List
        ℕ)
      × (d'' : Driver) × (off' : ℕ) × (inject_byte_code argc (some f) true garbage net
          ≡ (bytes first ∷ bytes second ∷ [], success))
      × (handle_acceptfd get_cpu fuel s first second junk ≡ some (t, []))
      × (t.irq_line ≡ true)
      × (irq_handler get_cpu fuel d t true ≡ some ((true, d'), t', []))
      × (t'.irq_line ≡ false)
      × (recv_bytecode c t' rounds stale d' off ≡ received h written d'' off')
      × (save_bytecode calls written h.payload_len ≡ (some f.contents, true))
unfolding save_bytecode
file_delivered v fuel enough calm f argc garbage net s junk stale d off rounds calls args online all
      pos fits readable ok idle clean few opened wrote closed =
    let (h, sends, f_fits, type, len) =
      inject_byte_code-sends_whole f garbage argc net args online readable (omega arith) in
    let (t, t', d', written, d'', off', stored, up, acked, low, fetched, payload, _) =
      injection_delivered v fuel enough calm s h f.contents junk stale d off rounds ok idle clean
        all f_fits type (omega (arith, len)) (omega (arith, len)) (omega (arith, len))
        (omega (arith, len)) in
    (
      header_bytes h,
      f.contents,
      t,
      t',
      d',
      h,
      written,
      d'',
      off',
      sends,
      stored,
      up,
      acked,
      low,
      fetched,
      ground (arith, opened, wrote, closed, len, payload),
    )
