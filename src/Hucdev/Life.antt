-- ===== src/Hucdev/Life.antt =====
-- Everything that enters the code of qemu-patch/hucdev.c after huc_realize: the guest's writes to both
-- windows, and the rounds of the main loop that call the handlers of the sockets.
pub mod Typed
pub mod Safety
use huc.Base.{
  ℕ, ◌%◌, Bool, true, false, ◌&&◌, Option, none, some, List, [], ◌∷◌, leb, ltb, if◌then◌else◌, ◌++◌,
}
use huc.Hucdev.{HucState, Fd, Effect, Handler, listenfd, acceptfd, unwatched}
use huc.Hucdev.Cpus.{CpuTable}
use huc.Hucdev.Regs.{io_write}
use huc.Hucdev.Mmio.{bufmmio_write}
use huc.Hucdev.Server.{handle_listenfd, handle_acceptfd}

-- A write to the register window or to the buffer window, a client for whom `accept` returns a
-- descriptor, and what the two calls of `recv` are offered, with what `CPU_ALLOC` returns.
pub data Event : Type 0 where
  io_access : (addr val : ℕ) → Event
  mmio_access : (addr val size : ℕ) → Event
  client_comes : (accepted : Fd) → Event
  client_sends : (first second : List ℕ) (junk : ℕ) → Event

-- `hucdev_io_write`, which asks the host for nothing
abbrev pub quietly : Option HucState → Option (HucState × List Effect)
quietly none = none
quietly (some s) = some (s, [])

-- A handler runs only if the main loop watches its descriptor.
abbrev pub if_listening : HucState → Handler → Fd → HucState
if_listening s listenfd c = handle_listenfd s c
if_listening s acceptfd c = s
if_listening s unwatched c = s

module _ (get_cpu : CpuTable) (fuel : ℕ) where
  abbrev pub if_accepted :
      HucState → Handler → List ℕ → List ℕ → ℕ → Option (HucState × List Effect)
  if_accepted s acceptfd first second junk = handle_acceptfd get_cpu fuel s first second junk
  if_accepted s listenfd first second junk = some (s, [])
  if_accepted s unwatched first second junk = some (s, [])

  -- One entry. `none` is the end of the virtual machine.
  unfoldable pub handle : HucState → Event → Option (HucState × List Effect)
  handle s (io_access addr val) = quietly (io_write s addr val)
  handle s (mmio_access addr val size) = bufmmio_write get_cpu fuel s addr val size
  handle s (client_comes c) = some (if_listening s (s.handlers s.listen_fd) c, [])
  handle s (client_sends first second junk) =
      if_accepted s (s.handlers s.connect_fd) first second junk

  -- One entry after the other.
  unfoldable pub run : HucState → List Event → Option (HucState × List Effect)
  run s [] = some (s, [])
  run s (e ∷ es) = elim (handle s e) [
    | none ↦ none
    | some (t, out) ↦ elim (run t es) [ none ↦ none | some (u, rest) ↦ some (u, out ++ rest) ]
  ]

-- The register writes that the range check lets through and `regnames` does not have.
abbrev pub aborts : Event → Bool
aborts (io_access addr val) = leb 16 (addr % 256) && ltb (addr % 256) 92
aborts (mmio_access addr val size) = false
aborts (client_comes accepted) = false
aborts (client_sends first second junk) = false

abbrev pub any_aborts : List Event → Bool
any_aborts [] = false
any_aborts (e ∷ es) = if aborts e then true else any_aborts es
