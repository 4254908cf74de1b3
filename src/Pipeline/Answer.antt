-- ===== src/Pipeline/Answer.antt =====
-- The answer of the guest: what the client gets back for a program.
use huc.Base.{
  ℕ, ◌+◌, ◌<◌, ◌≡◌, ap, ap₂, ◌∙◌, true, false, some, List, [], ◌∷◌, ◌++◌, length, take, inl,
  append-nil, arith,
}
use huc.Memory.{Memory, load_bytes}
use huc.Memory.Laws.{load_bytes-store_bytes, load_bytes_congr, store_bytes_outside}
use huc.Msg.{Header, header_at, header_bytes, program_injection}
use huc.Msg.Laws.{Fits}
use huc.Hucdev.{HucState, send, raise_irq, lower_irq}
use huc.Hucdev.Irq.{IrqOk, raise_irq-IrqOk, buf-raise_irq, buf-lower_irq}
use huc.Hucdev.Cpus.{CpuTable}
use huc.Hucdev.Cpus.Laws.{Vcpus}
use huc.Hucdev.Mmio.{bufmmio_write, doorbell}
use huc.Hucdev.Server.{handle_acceptfd, recv}
use huc.Hucdev.Server.Inject.{
  filled, header_at-filled, load_bytes-filled, handle_acceptfd-raise_irq,
}
use huc.Driver.{Driver, irq_handler, ioctl, iowrite32, ioctl_program_injection_result_ready}
use huc.Driver.Interrupt.{irq_handler_lem}

-- The header's bytes lie at byte 16.
load_bytes-header :
    (m : Memory) (h : Header) (second : List ℕ)
    → load_bytes (filled m h second) 16 4 ≡ header_bytes h
unfolding header_bytes load_bytes
load_bytes-header m h second =
    load_bytes_congr (filled m h second) (recv m 16 4 (header_bytes h)) 16 4
      (λ i lt. store_bytes_outside _ 20 (take h.payload_len second) (16 + i) (inl (omega arith)))
    ∙ load_bytes-store_bytes m 16 (header_bytes h)

-- The doorbell sends the message that lies in the buffer.
ioctl-doorbell :
    (get_cpu : CpuTable) (fuel : ℕ) (dev : HucState) (arg : ℕ)
    → ioctl get_cpu fuel dev ioctl_program_injection_result_ready arg false
      ≡ some (
        true,
        (doorbell dev).0,
        send dev.connect_fd (load_bytes dev.buf 16 4)
            ∷ send dev.connect_fd (load_bytes dev.buf 20 (header_at dev.buf 16).payload_len)
            ∷ [],
      )
unfolding ioctl iowrite32 bufmmio_write doorbell
ioctl-doorbell get_cpu fuel dev arg = ground arith

-- The way to the doorbell leaves the client's descriptor alone.
connect_fd-raise_irq : (s : HucState) (x : ℕ) → (raise_irq s x).connect_fd ≡ s.connect_fd
unfolding raise_irq
connect_fd-raise_irq s x = ground arith

connect_fd-lower_irq : (s : HucState) (x : ℕ) → (lower_irq s x).connect_fd ≡ s.connect_fd
unfolding lower_irq
connect_fd-lower_irq s x = ground arith

-- What the client gets back. A PROGRAM_INJECTION that comes whole to a well-formed device, the interrupt
-- served, and then the ioctl by which the guest reports its result, with no message between them: the
-- device sends the client's descriptor the header and the payload that the client sent, and nothing
-- else.
pub program_answered :
    {get_cpu : CpuTable} {n : ℕ} {thread : ℕ → ℕ} (v : Vcpus get_cpu n thread) (fuel : ℕ)
    → n < fuel
    → (s : HucState) (h : Header) (second : List ℕ) (junk : ℕ) (d : Driver) (arg : ℕ) → IrqOk s
    → Fits h
    → h.type ≡ program_injection
    → length second ≡ h.payload_len
    → (t t' t'' : HucState) × (d' : Driver) × (handle_acceptfd get_cpu fuel s
          (header_bytes h)
          second
          junk
        ≡ some (t, []))
      × (irq_handler get_cpu fuel d t true ≡ some ((true, d'), t', []))
      × (ioctl get_cpu fuel t' ioctl_program_injection_result_ready arg false
          ≡ some (true, t'', send s.connect_fd (header_bytes h) ∷ send s.connect_fd second ∷ []))
unfolding load_bytes
program_answered {get_cpu} v fuel enough s h second junk d arg ok fits type whole =
    let stored : HucState = record s { buf = filled s.buf h second } in
    let t : HucState = raise_irq stored 1 in
    let t_ok : IrqOk t =
      raise_irq-IrqOk 1 (omega arith)
        (record { status_fits = ok.status_fits; line_follows = ok.line_follows }) in
    let t' : HucState = lower_irq t t.irq_status in
    let buffer : t'.buf ≡ filled s.buf h second =
      buf-lower_irq t t.irq_status ∙ buf-raise_irq stored 1 in
    let client : t'.connect_fd ≡ s.connect_fd =
      connect_fd-lower_irq t t.irq_status ∙ connect_fd-raise_irq stored 1 in
    let head : header_at t'.buf 16 ≡ h =
      ap (λ m. header_at m 16) buffer ∙ header_at-filled s.buf h second fits in
    let front : load_bytes t'.buf 16 4 ≡ header_bytes h =
      ap (λ m. load_bytes m 16 4) buffer ∙ load_bytes-header s.buf h second in
    let rest : load_bytes t'.buf 20 (header_at t'.buf 16).payload_len ≡ second =
      ap (λ (x : Header). load_bytes t'.buf 20 x.payload_len) head
      ∙ ap (λ m. load_bytes m 20 h.payload_len) buffer
      ∙ load_bytes-filled s.buf h second (omega arith)
      ∙ ap (λ k. second ++ load_bytes s.buf (20 + length second) k) {y = 0} (omega arith)
      ∙ append-nil second in
    (
      t,
      t',
      (doorbell t').0,
      _,
      handle_acceptfd-raise_irq v fuel enough s h second junk fits type,
      irq_handler_lem get_cpu fuel d t t_ok.status_fits,
      ioctl-doorbell get_cpu fuel t' arg
          ∙ ap
              (λ fd. some (
                true,
                (doorbell t').0,
                send fd (load_bytes t'.buf 16 4)
                    ∷ send fd (load_bytes t'.buf 20 (header_at t'.buf 16).payload_len)
                    ∷ [],
              ))
              client
          ∙ ap₂
              (λ xs ys.
                some (true, (doorbell t').0, send s.connect_fd xs ∷ send s.connect_fd ys ∷ []))
              front rest,
    )
