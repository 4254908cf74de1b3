-- ===== src/Machine/Invariant.antt =====
-- What the daemon has fetched, under every interleaving.
use huc.Base.{
  ℕ, ◌+◌, ◌-◌, ◌%◌, ◌^◌, ◌≤◌, ◌<◌, ◌≡◌, ap, ◌∙◌, sym, Bool, true, false, some, List, length, arith,
  ℕ_discrete,
}
use mathlib.Core.Path.{subst}
use huc.Memory.{Memory, load_bytes}
use huc.Memory.Laws.{Bytes, AllBytes}
use huc.Msg.{Header, header_at, header_bytes, program_injection}
use huc.Msg.Laws.{Fits}
use huc.Hucdev.{HucState, Effect, raise_irq, lower_irq}
use huc.Hucdev.Irq.{IrqOk, raise_irq-IrqOk, buf-raise_irq, lower_irq-IrqOk, buf-lower_irq}
use huc.Hucdev.Cpus.{CpuTable}
use huc.Hucdev.Cpus.Laws.{Vcpus}
use huc.Hucdev.Server.{handle_acceptfd}
use huc.Hucdev.Server.Inject.{filled, header_at-filled, handle_acceptfd-raise_irq}
use huc.Driver.{Driver, read, returned, irq_handler}
use huc.Driver.Interrupt.{irq_handler_lem}
use huc.Driver.Window.{read-load_bytes}
use huc.Daemon.Recv.Loop.{round_up}
use huc.Pipeline.{filled-Bytes}
use huc.Machine.{Fetching, waiting, in_payload, fetched, Machine}

-- The daemon in its loop. If nothing came since the header was read, header and bytes are the buffer's.
pub record Progress (m : Memory) (arrived : Bool) (h : Header) (left : ℕ) (written : List ℕ)
    (off : ℕ) : Type 0 where
  pub small : h.payload_len ≤ 65516
  pub off_at : off ≡ 20 + length written
  pub words : length written % 4 ≡ 0
  pub within : length written ≤ round_up h.payload_len
  pub left_at : left ≡ (h.payload_len + 2 ^ 32 - length written) % 2 ^ 32
  pub same : arrived ≡ false → (header_at m 16 ≡ h) × (written ≡ load_bytes m 20 (length written))

pub record Complete (m : Memory) (arrived : Bool) (h : Header) (written : List ℕ) : Type 0 where
  pub size : length written ≡ round_up h.payload_len
  pub same : arrived ≡ false → (header_at m 16 ≡ h) × (written ≡ load_bytes m 20 (length written))

abbrev pub DaemonOk : Memory → Bool → Fetching → Type 0
DaemonOk m arrived waiting = Unit
DaemonOk m arrived (in_payload h left written off) = Progress m arrived h left written off
DaemonOk m arrived (fetched h written) = Complete m arrived h written

-- The device is well-formed, its message fits the window, and the daemon is where it should be.
pub record MachineOk (s : Machine) : Type 0 where
  pub irq : IrqOk s.dev
  pub bytes : Bytes s.dev.buf
  pub fits : (header_at s.dev.buf 16).payload_len ≤ 65516
  pub daemon_ok : DaemonOk s.dev.buf s.arrived s.daemon

-- A `read` of four bytes that returns has returned the word at its offset.
pub read_returned :
    (d : Driver) (dev : HucState) (off len : ℕ) (bytes : List ℕ) (d' : Driver) (off' : ℕ)
    → Bytes dev.buf
    → off % 4 ≡ 0
    → 4 ≤ off
    → off < 65536
    → read d dev off 4 false false ≡ returned (some len) bytes d' off'
    → (len ≡ 4) × (bytes ≡ load_bytes dev.buf off 4) × (off' ≡ off + 4)
unfolding read
read_returned d dev off len bytes d' off' all aligned lo hi e = elim (ℕ_discrete d.flag 0) [
  | yes z ↦ absurd (ground (arith, e))
  | no awake ↦
      let is = sym e ∙ read-load_bytes d dev off all aligned lo hi awake in
      (cc (is), cc (is), cc (is))
]

-- A message that comes says nothing of what the daemon has.
DaemonOk-arrived : (m m' : Memory) (a : Bool) (f : Fetching) → DaemonOk m a f → DaemonOk m' true f
DaemonOk-arrived m m' a waiting ok = tt
DaemonOk-arrived m m' a (in_payload h left written off) ok = record {
  small = ok.small;
  off_at = ok.off_at;
  words = ok.words;
  within = ok.within;
  left_at = ok.left_at;
  same = λ e. absurd (cc (e));
}
DaemonOk-arrived m m' a (fetched h written) ok = record {
  size = ok.size;
  same = λ e. absurd (cc (e));
}

module _ {get_cpu : CpuTable} {n : ℕ} {thread : ℕ → ℕ} (v : Vcpus get_cpu n thread) (fuel : ℕ)
    (enough : n < fuel) where
  pub arrive-MachineOk :
      (s : Machine) (h : Header) (second : List ℕ) (junk : ℕ) (t : HucState) (out : List Effect)
      → AllBytes second
      → Fits h
      → h.type ≡ program_injection
      → h.payload_len ≤ 65516
      → handle_acceptfd get_cpu fuel s.dev (header_bytes h) second junk ≡ some (t, out)
      → MachineOk s
      → MachineOk (record s { dev = t; arrived = true })
  arrive-MachineOk s h second junk t out all f type le e q =
      let stored : HucState = record (s.dev) { buf = filled s.dev.buf h second } in
      let is : t ≡ raise_irq stored 1 =
        cc (sym e ∙ handle_acceptfd-raise_irq v fuel enough s.dev h second junk f type) in
      let buffer : t.buf ≡ filled s.dev.buf h second =
        ap (λ (x : HucState). x.buf) is ∙ buf-raise_irq stored 1 in
      record {
        irq = subst IrqOk (sym is) (
            raise_irq-IrqOk {s = stored} 1 (omega arith)
              (record { status_fits = q.irq.status_fits; line_follows = q.irq.line_follows }));
        bytes = λ x.
            ground (
              arith,
              ap (λ (b : Memory). b x) buffer,
              filled-Bytes s.dev.buf h second q.bytes all x,
            );
        fits =
            ground (arith, ap (λ b. header_at b 16) buffer ∙ header_at-filled s.dev.buf h second f);
        daemon_ok = DaemonOk-arrived s.dev.buf t.buf s.arrived s.daemon q.daemon_ok;
      }

  pub interrupt-MachineOk :
      (s : Machine) (d : Driver) (t : HucState) (out : List Effect)
      → irq_handler get_cpu fuel s.driver s.dev true ≡ some ((true, d), t, out)
      → MachineOk s
      → MachineOk (record s { dev = t; driver = d })
  interrupt-MachineOk s d t out e q =
      let is : t ≡ lower_irq s.dev s.dev.irq_status =
        cc (sym e ∙ irq_handler_lem get_cpu fuel s.driver s.dev q.irq.status_fits) in
      let buffer : t.buf ≡ s.dev.buf =
        ap (λ (x : HucState). x.buf) is ∙ buf-lower_irq s.dev s.dev.irq_status in
      record {
        irq = subst IrqOk (sym is) (lower_irq-IrqOk s.dev.irq_status q.irq);
        bytes = subst Bytes (sym buffer) q.bytes;
        fits = subst (λ b. (header_at b 16).payload_len ≤ 65516) (sym buffer) q.fits;
        daemon_ok = subst (λ b. DaemonOk b s.arrived s.daemon) (sym buffer) q.daemon_ok;
      }
