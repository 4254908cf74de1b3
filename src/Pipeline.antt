-- ===== src/Pipeline.antt =====
-- A message on its whole way: from the client's socket through the device of qemu-patch/hucdev.c and
-- the driver of guestend/driver/huc-driver.c to the daemon of guestend/daemon.c.
pub mod Affinity
pub mod Tool
pub mod Pinning
pub mod Sessions
pub mod Answer
pub mod Rounds
use huc.Base.{
  ℕ, ◌+◌, ◌≤◌, ◌<◌, ◌≡◌, ap, ◌∙◌, some, List, [], ◌++◌, arith, true, false, length, bit_or,
  append-nil, take,
}
use huc.Memory.{Memory, load_bytes}
use huc.Memory.Laws.{Bytes, AllBytes, store_bytes-Bytes, take-AllBytes, take-load_bytes}
use huc.Msg.{Header, header_at, header_bytes, program_injection}
use huc.Msg.Laws.{Fits}
use huc.Hucdev.{HucState, raise_irq}
use huc.Hucdev.Irq.{IrqOk, raise_irq-IrqOk, irq_status-raise_irq, buf-raise_irq}
use huc.Hucdev.Cpus.{CpuTable}
use huc.Hucdev.Cpus.Laws.{Vcpus}
use huc.Hucdev.Server.{handle_acceptfd}
use huc.Hucdev.Server.Inject.{
  filled, header_at-filled, load_bytes-filled, handle_acceptfd-raise_irq,
}
use huc.Driver.{Driver, irq_handler, flag_of_irq}
use huc.Driver.Interrupt.{irq_handler_acks}
use huc.Daemon.Recv.{Calls, received, recv_bytecode}
use huc.Daemon.Recv.Loop.{Calm, round_up}
use huc.Daemon.Recv.Whole.{recv_bytecode-received}

pub filled-Bytes :
    (m : Memory) (h : Header) (second : List ℕ)
    → Bytes m
    → AllBytes second
    → Bytes (filled m h second)
unfolding header_bytes
filled-Bytes m h second bytes all =
    store_bytes-Bytes _ 20 _ (store_bytes-Bytes m 16 _ bytes (omega arith))
      (take-AllBytes h.payload_len second all)

module _ {get_cpu : CpuTable} {n : ℕ} {thread : ℕ → ℕ} (v : Vcpus get_cpu n thread) (fuel : ℕ)
    (enough : n < fuel) where
  -- What the daemon fetches once a message lies in the buffer and the driver has been told.
  fetch-delivers :
      {c : Calls} (calm : Calm c) (dev : HucState) (m : Memory) (h : Header) (second : List ℕ)
      (stale : Memory) (d : Driver) (off rounds : ℕ)
      → Bytes m
      → AllBytes second
      → Fits h
      → 0 < h.payload_len
      → h.payload_len ≤ 65516
      → length second ≡ h.payload_len
      → h.payload_len < rounds
      → dev.buf ≡ filled m h second
      → d.flag ≡ 2
      → (written : List ℕ) × (d' : Driver) × (off' : ℕ) × (recv_bytecode c dev rounds stale d off
          ≡ received h written d' off')
        × (take h.payload_len written ≡ second)
        × (d'.flag ≡ 0)
  unfolding load_bytes
  fetch-delivers calm dev m h second stale d off rounds bytes all f pos fits whole few same awake =
      let head : header_at dev.buf 16 ≡ h =
        ap (λ b. header_at b 16) same ∙ header_at-filled m h second f in
      let len : (header_at dev.buf 16).payload_len ≡ h.payload_len =
        ap (λ (x : Header). x.payload_len) head in
      let dev_bytes : Bytes dev.buf =
        λ x. ground (arith, ap (λ (b : Memory). b x) same, filled-Bytes m h second bytes all x) in
      let (d', off', e, z) =
        recv_bytecode-received calm dev dev_bytes rounds stale d off awake (omega arith)
          (omega arith) (omega arith) in
      (
        load_bytes dev.buf 20 (round_up (header_at dev.buf 16).payload_len),
        d',
        off',
        e
            ∙ ap
                (λ x.
                  received x (load_bytes dev.buf 20 (round_up (header_at dev.buf 16).payload_len))
                    d' off')
                head,
        take-load_bytes dev.buf 20 h.payload_len _ (omega arith)
            ∙ ap (λ b. load_bytes b 20 h.payload_len) same
            ∙ load_bytes-filled m h second (omega arith)
            ∙ ap (λ k. second ++ load_bytes m (20 + length second) k) {y = 0} (omega arith)
            ∙ append-nil second,
        z,
      )

  -- A message on its way, and the device that it leaves ready for the next one.
  pub injection_settles :
      {c : Calls} (calm : Calm c) (s : HucState) (h : Header) (second : List ℕ) (junk : ℕ)
      (stale : Memory) (d : Driver) (off rounds : ℕ)
      → IrqOk s
      → s.irq_status ≡ 0
      → Bytes s.buf
      → AllBytes second
      → Fits h
      → h.type ≡ program_injection
      → 0 < h.payload_len
      → h.payload_len ≤ 65516
      → length second ≡ h.payload_len
      → h.payload_len < rounds
      → (t t' : HucState) × (d' : Driver) × (written : List ℕ) × (d'' : Driver) × (off' : ℕ)
        × (handle_acceptfd get_cpu fuel s (header_bytes h) second junk ≡ some (t, []))
        × (t.irq_line ≡ true)
        × (irq_handler get_cpu fuel d t true ≡ some ((true, d'), t', []))
        × (t'.irq_line ≡ false)
        × (recv_bytecode c t' rounds stale d' off ≡ received h written d'' off')
        × (take h.payload_len written ≡ second)
        × (d''.flag ≡ 0)
        × IrqOk t'
        × (t'.irq_status ≡ 0)
        × Bytes t'.buf
  injection_settles calm s h second junk stale d off rounds ok idle bytes all f e pos fits whole
        few =
      let arrived : HucState = record s { buf = filled s.buf h second } in
      let t : HucState = raise_irq arrived 1 in
      let status : t.irq_status ≡ 1 = irq_status-raise_irq arrived 1 ∙ ap (λ x. bit_or x 1) idle in
      let t_ok : IrqOk t =
        raise_irq-IrqOk {s = arrived} 1 (omega arith)
          (record { status_fits = ok.status_fits; line_follows = ok.line_follows }) in
      let (t', acks, clear, low, same) = irq_handler_acks get_cpu fuel d t t_ok in
      let (written, d'', off', fetched, payload, quiet) =
        fetch-delivers calm t' s.buf h second stale
          (record d { flag = flag_of_irq t.irq_status d.flag }) off rounds bytes all f pos fits
          whole few (same ∙ buf-raise_irq arrived 1) (ap (λ x. flag_of_irq x d.flag) status) in
      (
        t,
        t',
        record d { flag = flag_of_irq t.irq_status d.flag },
        written,
        d'',
        off',
        handle_acceptfd-raise_irq v fuel enough s h second junk f e,
        t_ok.line_follows.1 (λ z. omega (arith, status)),
        acks,
        low,
        fetched,
        payload,
        quiet,
        record {
          status_fits = omega (arith, clear);
          line_follows = (λ e. absurd (cc (e, low)), λ ne. absurd (ne clear));
        },
        clear,
        λ x. ground (
          arith,
          ap (λ (b : Memory). b x) (same ∙ buf-raise_irq arrived 1),
          filled-Bytes s.buf h second bytes all x,
        ),
      )

  -- Delivery. The device is idle with its status clear, the daemon is calm, and a client sends a
  -- PROGRAM_INJECTION whose header and payload each arrive whole, with a payload of 1 to 65516
  -- bytes. Then the device stores the message and raises the interrupt, the driver's handler
  -- acknowledges it and lets the line fall, and the daemon's fetch ends with the header that was
  -- sent and bytes that begin with the payload that was sent; after that the driver has nothing to
  -- read.
  pub injection_delivered :
      {c : Calls} (calm : Calm c) (s : HucState) (h : Header) (second : List ℕ) (junk : ℕ)
      (stale : Memory) (d : Driver) (off rounds : ℕ)
      → IrqOk s
      → s.irq_status ≡ 0
      → Bytes s.buf
      → AllBytes second
      → Fits h
      → h.type ≡ program_injection
      → 0 < h.payload_len
      → h.payload_len ≤ 65516
      → length second ≡ h.payload_len
      → h.payload_len < rounds
      → (t t' : HucState) × (d' : Driver) × (written : List ℕ) × (d'' : Driver) × (off' : ℕ)
        × (handle_acceptfd get_cpu fuel s (header_bytes h) second junk ≡ some (t, []))
        × (t.irq_line ≡ true)
        × (irq_handler get_cpu fuel d t true ≡ some ((true, d'), t', []))
        × (t'.irq_line ≡ false)
        × (recv_bytecode c t' rounds stale d' off ≡ received h written d'' off')
        × (take h.payload_len written ≡ second)
        × (d''.flag ≡ 0)
  injection_delivered calm s h second junk stale d off rounds ok idle bytes all f e pos fits whole
        few =
      let (t, t', d', written, d'', off', stored, up, acks, low, fetched, payload, quiet, _, _, _) =
        injection_settles calm s h second junk stale d off rounds ok idle bytes all f e pos fits
          whole few in
      (t, t', d', written, d'', off', stored, up, acks, low, fetched, payload, quiet)
