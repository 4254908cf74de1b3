-- ===== src/Hucdev/Regs/Laws.antt =====
-- What a register access does on every branch.
use huc.Base.{ℕ, ◌/◌, ◌%◌, ◌≤◌, ◌<◌, ◌≡◌, ◌≢◌, ◌↔◌, none, some, arith, u32, ◌==◌, if◌then◌else◌}
use huc.Hucdev.{HucState}
use huc.Hucdev.Irq.{IrqOk, raise_irq-IrqOk, lower_irq-IrqOk}
use huc.Hucdev.Regs.{io_read, io_write, io_dispatch}

-- A register write ends the virtual machine exactly at the byte addresses 16 to 91, which the range
-- check lets through and `regnames` does not cover.
io_write_aborts :
    (s : HucState) (addr val : ℕ)
    → (io_write s addr val ≡ none) ↔ ((16 ≤ addr % 256) × (addr % 256 < 92))
unfolding io_write
io_write_aborts s addr val = ground arith

io_dispatch-IrqOk : {s : HucState} (a val : ℕ) → IrqOk s → IrqOk (io_dispatch s a val)
unfolding io_dispatch
io_dispatch-IrqOk {s} a val ok =
    ground (arith, raise_irq-IrqOk (u32 val) (omega arith) ok, lower_irq-IrqOk (u32 val) ok)

-- A register write that returns keeps the interrupt line in step with the status.
io_write-IrqOk : {s t : HucState} (addr val : ℕ) → IrqOk s → io_write s addr val ≡ some t → IrqOk t
unfolding io_write
io_write-IrqOk {s} addr val ok e = ground (arith, io_dispatch-IrqOk (addr % 256) val ok)

io_read_written :
    (s : HucState) {t : HucState} (addr addr' val : ℕ)
    → addr % 256 < 16
    → addr % 256 ≢ 8
    → addr % 256 ≢ 12
    → addr' % 256 ≢ 0
    → io_write s addr val ≡ some t
    → io_read t addr' ≡ (if addr % 256 / 4 == addr' % 256 / 4 then u32 val else io_read s addr')
unfolding io_write io_read
io_read_written s addr addr' val lt ne8 ne12 ne e = ground arith

-- A write to a scratch register (any address below 16 but 8 and 12) does not abort, and is read back
-- at every address of the same register but address 0; at no other address is anything changed.
io_read-io_write :
    (s : HucState) (addr addr' val : ℕ)
    → addr % 256 < 16
    → addr % 256 ≢ 8
    → addr % 256 ≢ 12
    → addr' % 256 ≢ 0
    → (t : HucState) × (io_write s addr val ≡ some t)
      × (io_read t addr' ≡ (if addr % 256 / 4 == addr' % 256 / 4 then u32 val else io_read s addr'))
unfolding io_write
io_read-io_write s addr addr' val lt ne8 ne12 ne =
    let t : HucState = record s {
      ioregs = λ i. if addr % 256 / 4 == i then u32 val else s.ioregs i;
    } in
    let e : io_write s addr val ≡ some t = ground arith in
    (t, e, io_read_written s addr addr' val lt ne8 ne12 ne e)
