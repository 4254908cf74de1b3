-- ===== src/Tests/Life.antt =====
-- A day of the concrete device: accesses of the guest, messages and clients.
use huc.Base.{◌≡◌, ◌⊎◌, inr, true, false, none, some, List, [], ◌∷◌, arith}
use huc.Msg.{header_bytes}
use huc.Hucdev.{HucState, Effect}
use huc.Hucdev.Life.{Event, io_access, mmio_access, client_comes, client_sends, run}
use huc.Hucdev.Life.Safety.{DeviceOk, EventsOk, run-DeviceOk}
use huc.Tests.Data.{
  two_cpus, two_cpus-Vcpus, idle_device, idle_device-IrqOk, idle_device-Connected, six_header,
  six_bytes,
}

-- The guest acknowledges and raises, and writes a data word; the client injects a program and leaves,
-- and another comes.
abbrev busy_day : List Event
busy_day =
    io_access 12 1
    ∷ mmio_access 0 4 4
    ∷ mmio_access 40 77 4
    ∷ client_sends (header_bytes six_header) six_bytes 0
    ∷ client_sends [] [] 0
    ∷ client_comes 9
    ∷ []

busy_day-EventsOk : EventsOk 5 busy_day
unfolding header_bytes
busy_day-EventsOk = (
  tt,
  (
    tt,
    (
      tt,
      (
        (
          (omega arith, (omega arith, (omega arith, (omega arith, tt)))),
          (
            omega arith,
            (omega arith, (omega arith, (omega arith, (omega arith, (omega arith, tt))))),
          ),
        ),
        ((tt, tt), ((omega arith, λ e. omega arith), tt)),
      ),
    ),
  ),
)

idle_device-DeviceOk : DeviceOk 5 idle_device
idle_device-DeviceOk = record {
  typed = record { irq = idle_device-IrqOk; bytes = λ a. omega arith; regs = λ i. omega arith };
  serving = inr (7, idle_device-Connected);
}

run-DeviceOk_example :
    ((false ≡ true) × (run two_cpus 3 idle_device busy_day ≡ none))
    ⊎ ((false ≡ false)
        × (t : HucState) × (out : List Effect) × (run two_cpus 3 idle_device busy_day
            ≡ some (t, out))
        × DeviceOk 5 t)
run-DeviceOk_example =
    run-DeviceOk two_cpus-Vcpus 3 (omega arith) 5 idle_device busy_day busy_day-EventsOk
      idle_device-DeviceOk
