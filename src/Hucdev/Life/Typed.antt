-- ===== src/Hucdev/Life/Typed.antt =====
-- Every function of the device keeps the values of its state within their types.
use huc.Base.{
  ℕ, ◌*◌, ◌/◌, ◌%◌, ◌^◌, ◌<◌, ◌≡◌, ◌≢◌, Bool, not, refl, none, some, List, [], ◌∷◌, arith, u32,
  take, ◌==◌, if◌then◌else◌,
}
use huc.Memory.{Memory, store32, store_bytes, word_bytes}
use huc.Memory.Laws.{Bytes, AllBytes, store_bytes-Bytes, take-AllBytes}
use huc.Hucdev.Cpus.{count_only, pin_all, reset_mask, pin_mask}
use huc.Hucdev.Cpus.Laws.{Vcpus, for_each_cpu-rounds}
use huc.Hucdev.Mmio.Laws.{result_of}
use huc.Msg.{Header, header_at}
use huc.Hucdev.{Fd, Handler, HucState, Effect, raise_irq, lower_irq}
use huc.Hucdev.Irq.{IrqOk, raise_irq-IrqOk, lower_irq-IrqOk}
use huc.Hucdev.Cpus.{CpuTable}
use huc.Hucdev.Regs.{io_write, io_dispatch}
use huc.Hucdev.Mmio.{bufmmio_write, doorbell, set_affinity}
use huc.Hucdev.Server.{dispatch, handle_acceptfd, close_connection, handle_listenfd, recv}

-- The status has 32 bits and the line follows it; the buffer holds bytes, and each register 32 bits.
pub record Typed (s : HucState) : Type 0 where
  pub irq : IrqOk s
  pub bytes : Bytes s.buf
  pub regs : (i : ℕ) → s.ioregs i < 2 ^ 32

raise_irq-Typed : {s : HucState} (v : ℕ) → v < 2 ^ 32 → Typed s → Typed (raise_irq s v)
unfolding raise_irq
raise_irq-Typed {s} v fits q = record {
  irq = raise_irq-IrqOk v fits q.irq;
  bytes = λ x. ground (arith, q.bytes x);
  regs = λ i. ground (arith, q.regs i);
}

lower_irq-Typed : {s : HucState} (v : ℕ) → Typed s → Typed (lower_irq s v)
unfolding lower_irq
lower_irq-Typed {s} v q = record {
  irq = lower_irq-IrqOk v q.irq;
  bytes = λ x. ground (arith, q.bytes x);
  regs = λ i. ground (arith, q.regs i);
}

-- A new buffer of bytes.
buf-Typed : {s : HucState} (m : Memory) → Bytes m → Typed s → Typed (record s { buf = m })
buf-Typed m all q = record {
  irq = record { status_fits = q.irq.status_fits; line_follows = q.irq.line_follows };
  bytes = all;
  regs = q.regs;
}

store32-Bytes : (m : Memory) (a v : ℕ) → Bytes m → Bytes (store32 m a v)
unfolding store32
store32-Bytes m a v all =
    store_bytes-Bytes m a (word_bytes v) all
      (omega arith, (omega arith, (omega arith, (omega arith, tt))))

ioregs-Typed :
    {s : HucState} (a val : ℕ)
    → Typed s
    → Typed (record s { ioregs = λ i. if a / 4 == i then u32 val else s.ioregs i })
ioregs-Typed {s} a val q = record {
  irq = record { status_fits = q.irq.status_fits; line_follows = q.irq.line_follows };
  bytes = q.bytes;
  regs = λ i. ground (arith, q.regs i);
}

pub io_write-Typed :
    {s t : HucState} (addr val : ℕ) → Typed s → io_write s addr val ≡ some t → Typed t
unfolding io_write io_dispatch
io_write-Typed {s} addr val q e = ground (
  arith,
  raise_irq-Typed (u32 val) (omega arith) q,
  lower_irq-Typed (u32 val) q,
  ioregs-Typed (addr % 256) val q,
)

-- The number of vCPUs that a PROGRAM_INJECTION_AFFINITY stores, of any 16 bits.
counted-Typed :
    {s : HucState} (k : ℕ)
    → Typed s
    → Typed
        (raise_irq (record s { buf = store_bytes s.buf 22 ((k % 256) ∷ (k / 256 % 256) ∷ []) }) 3)
counted-Typed {s} k q = raise_irq-Typed 3 (omega arith) (
    buf-Typed _
      (store_bytes-Bytes s.buf 22 ((k % 256) ∷ (k / 256 % 256) ∷ []) q.bytes
        (omega arith, (omega arith, tt)))
      q)

hyperthreading-Typed :
    {s : HucState} (b : Bool) → Typed s → Typed (record s { hyperthreading_remapping = b })
hyperthreading-Typed b q = record {
  irq = record { status_fits = q.irq.status_fits; line_follows = q.irq.line_follows };
  bytes = q.bytes;
  regs = q.regs;
}

sockets-Typed :
    {s : HucState} (c : Fd) (h : Fd → Handler)
    → Typed s
    → Typed (record s { connect_fd = c; handlers = h })
sockets-Typed c h q = record {
  irq = record { status_fits = q.irq.status_fits; line_follows = q.irq.line_follows };
  bytes = q.bytes;
  regs = q.regs;
}

pub handle_listenfd-Typed : {s : HucState} (c : Fd) → Typed s → Typed (handle_listenfd s c)
unfolding handle_listenfd
handle_listenfd-Typed c q = sockets-Typed c _ q

module _ (get_cpu : CpuTable) (fuel : ℕ) where
  pub bufmmio_write-Typed :
      {s t : HucState} {out : List Effect} (addr val size : ℕ)
      → Typed s
      → bufmmio_write get_cpu fuel s addr val size ≡ some (t, out)
      → Typed t
  unfolding bufmmio_write doorbell set_affinity
  bufmmio_write-Typed {s} addr val size q e = ground (
    arith,
    raise_irq-Typed (u32 val) (omega arith) q,
    lower_irq-Typed (u32 val) q,
    buf-Typed _ (store32-Bytes s.buf 8 0 q.bytes) q,
    buf-Typed _ (store32-Bytes s.buf (addr % 65536 / 4 * 4) val q.bytes) q,
  )

module _ {get_cpu : CpuTable} {n : ℕ} {thread : ℕ → ℕ} (v : Vcpus get_cpu n thread) (fuel : ℕ)
    (enough : n < fuel) where
  dispatch-Typed :
      {s t : HucState} {out : List Effect} (type junk : ℕ)
      → Typed s
      → dispatch get_cpu fuel s type junk ≡ some (t, out)
      → Typed t
  unfolding dispatch
  dispatch-Typed {s} type junk q e = ground (
    arith,
    for_each_cpu-rounds v count_only n 0 fuel (omega arith) enough,
    raise_irq-Typed 1 (omega arith) q,
    counted-Typed n q,
    hyperthreading-Typed (not s.hyperthreading_remapping) q,
  )

  dispatch_ends : (s : HucState) (type junk : ℕ) → dispatch get_cpu fuel s type junk ≢ none
  unfolding dispatch
  dispatch_ends s type junk =
      let count = for_each_cpu-rounds v count_only n 0 fuel (omega arith) enough in
      let resets = for_each_cpu-rounds v (pin_all reset_mask) n 0 fuel (omega arith) enough in
      let pins = for_each_cpu-rounds v (pin_all (pin_mask junk)) n 0 fuel (omega arith) enough in
      λ e. ground (arith, count, resets, pins)

  -- A call of the handler returns, and the state stays well typed.
  pub handle_acceptfd-Typed :
      {s : HucState} (first second : List ℕ) (junk : ℕ)
      → AllBytes first
      → AllBytes second
      → Typed s
      → (t : HucState) × (out : List Effect) × (handle_acceptfd get_cpu fuel s first second junk
          ≡ some (t, out))
        × Typed t
  unfolding handle_acceptfd close_connection
  handle_acceptfd-Typed {s} [] second junk all all' q =
      (close_connection s, [], refl, sockets-Typed _ _ q)
  handle_acceptfd-Typed {s} (b ∷ first) second junk all all' q =
      let headed : Memory = recv s.buf 16 4 (b ∷ first) in
      let h : Header = header_at headed 16 in
      let m : Memory = recv headed 20 h.payload_len second in
      let stored : Typed (record s { buf = m }) =
        buf-Typed m
          (store_bytes-Bytes headed 20 (take h.payload_len second)
            (store_bytes-Bytes s.buf 16 (take 4 (b ∷ first)) q.bytes
              (take-AllBytes 4 (b ∷ first) all))
            (take-AllBytes h.payload_len second all'))
          q in
      let ((t, out), e) = result_of _ (dispatch_ends (record s { buf = m }) h.type junk) in
      (t, out, e, dispatch-Typed h.type junk stored e)
