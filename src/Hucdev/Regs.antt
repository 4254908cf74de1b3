-- ===== src/Hucdev/Regs.antt =====
-- The legacy register window of qemu-patch/hucdev.c: `hucdev_io_read` and `hucdev_io_write`.
pub mod Laws
use huc.Base.{ℕ, ◌/◌, ◌%◌, Option, none, some, ◌==◌, if◌then◌else◌, leb, ltb, u32}
use huc.Hucdev.{HucState, reg_end, raise_irq, lower_irq}

-- `hucdev_io_read(opaque, addr, size)`; the mask `HUCDEV_REG_MASK` is `% 256`.
unfoldable pub io_read : HucState → ℕ → ℕ
io_read s addr =
    let a = addr % 256 in
    if leb reg_end a then 0 else if a == 0 then s.irq_status else s.ioregs (a / 4)

-- `regnames` has four entries.
abbrev pub regnames_size : ℕ
regnames_size = 4

-- The `switch` of `hucdev_io_write`.
unfoldable pub io_dispatch : HucState → ℕ → ℕ → HucState
io_dispatch s a val =
    if a == 8
    then raise_irq s (u32 val)
    else if a == 12
    then lower_irq s (u32 val)
    else record s { ioregs = λ i. if a / 4 == i then u32 val else s.ioregs i }

-- `hucdev_io_write(opaque, addr, val, size)`. `none` is the failure of its `assert`, which ends the
-- virtual machine.
unfoldable pub io_write : HucState → ℕ → ℕ → Option HucState
unfolding io_dispatch
io_write s addr val =
    let a = addr % 256 in
    if leb reg_end a
    then some s
    else if ltb (a / 4) regnames_size
    then some (io_dispatch s a val)
    else none
