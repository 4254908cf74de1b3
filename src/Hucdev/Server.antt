-- ===== src/Hucdev/Server.antt =====
-- The TCP server of qemu-patch/hucdev.c: `make_socket`, `huc_realize`, `handle_listenfd`,
-- `handle_acceptfd` and `hucdev_uninit`.
pub mod Inject
pub mod Watch
pub mod Masks
pub mod Stream
use huc.Base.{
  ℕ, ◌+◌, ◌/◌, ◌%◌, Bool, true, false, not, ◌||◌, Option, none, some, List, [], ◌∷◌, ◌==◌,
  if◌then◌else◌, take, u16,
}
use huc.Memory.{Memory, store_bytes}
use huc.Msg.{
  Header, header_at, header_size, program_injection, program_injection_affinity, reset, pin_on_same,
  ht_remapping,
}
use huc.Hucdev.{
  Fd, no_fd, is_negative, Handler, unwatched, listenfd, acceptfd, HucState, Effect, raise_irq,
}
use huc.Hucdev.Cpus.{CpuTable, for_each_cpu, pin_all, count_only, reset_mask, pin_mask}
use huc.Hucdev.Mmio.{header_offset, payload_offset}

-- `qemu_set_fd_handler(fd, h, NULL, hucdev)`
abbrev pub set_fd_handler : HucState → Fd → Handler → HucState
set_fd_handler s fd h = record s { handlers = λ x. if fd == x then h else s.handlers x }

-- `handle_listenfd(opaque)`; `accepted` is what `accept` returns.
unfoldable pub handle_listenfd : HucState → Fd → HucState
handle_listenfd s accepted =
    set_fd_handler (set_fd_handler (record s { connect_fd = accepted }) accepted acceptfd)
      s.listen_fd unwatched

-- The branch of `handle_acceptfd` for a header that did not come: the connection is over.
unfoldable pub close_connection : HucState → HucState
close_connection s =
    set_fd_handler (record (set_fd_handler s s.connect_fd unwatched) { connect_fd = no_fd })
      s.listen_fd listenfd

-- `recv(fd, buf + a, n, 0)`: at most `n` of the bytes that are offered are stored. The empty list
-- stands for a result of 0 or -1, after which nothing has been stored.
abbrev pub recv : Memory → ℕ → ℕ → List ℕ → Memory
recv m a n offered = store_bytes m a (take n offered)

module _ (get_cpu : CpuTable) (fuel : ℕ) where
  -- The `switch` of `handle_acceptfd` on the type of the message that lies in the buffer. `junk` is
  -- what `CPU_ALLOC` returns uncleared. HT_REMAPPING falls through to the default.
  unfoldable pub dispatch : HucState → ℕ → ℕ → Option (HucState × List Effect)
  dispatch s type junk =
      if type == program_injection
      then elim (for_each_cpu get_cpu count_only fuel 0) [
        | none ↦ none
        | some (out, n) ↦ some (raise_irq s program_injection, [])
      ]
      else if type == program_injection_affinity
      then elim (for_each_cpu get_cpu count_only fuel 0) [
        | none ↦ none
        | some (out, n) ↦ some (
          raise_irq
              (record s {
                buf = store_bytes s.buf (payload_offset + 2) ((n % 256) ∷ (n / 256 % 256) ∷ []);
              })
              program_injection_affinity,
          [],
        )
      ]
      else if type == reset
      then elim (for_each_cpu get_cpu (pin_all reset_mask) fuel 0) [
        | none ↦ none
        | some (out, n) ↦ some (s, out)
      ]
      else if type == pin_on_same
      then elim (for_each_cpu get_cpu (pin_all (pin_mask junk)) fuel 0) [
        | none ↦ none
        | some (out, n) ↦ some (s, out)
      ]
      else if type == ht_remapping
      then some (record s { hyperthreading_remapping = not s.hyperthreading_remapping }, [])
      else some (s, [])

  -- `handle_acceptfd(opaque)`: `first` and `second` are what the two calls of `recv` are offered.
  unfoldable pub handle_acceptfd : HucState → List ℕ → List ℕ → ℕ → Option (HucState × List Effect)
  handle_acceptfd s [] second junk = some (close_connection s, [])
  handle_acceptfd s (b ∷ first) second junk =
      let headed = recv s.buf header_offset header_size (b ∷ first) in
      let header = header_at headed header_offset in
      dispatch (record s { buf = recv headed payload_offset header.payload_len second }) header.type
        junk

-- How the calls of `huc_realize` turn out. `socket` is a descriptor or -1.
pub record Setup : Type 0 where
  pub msi_init : Bool
  pub malloc : Bool
  pub socket : Fd
  pub bind : Bool
  pub listen : Bool

-- `make_socket(port)`
unfoldable pub make_socket : Setup → Fd
make_socket u = if is_negative u.socket then no_fd else if u.bind then u.socket else no_fd

-- `huc_realize(pdev, errp)` on the state that QEMU allocated; `none` is the failure of `msi_init`,
-- which the caller sees in `errp`.
unfoldable pub realize : HucState → Setup → Option HucState
unfolding make_socket
realize s u =
    let fd = make_socket u in
    let opened : HucState = record s {
      hyperthreading_remapping = false;
      listen_fd = fd;
      connect_fd = no_fd;
    } in
    if u.msi_init
    then if u.malloc
      then if is_negative fd || not u.listen
        then some opened
        else some (set_fd_handler opened fd listenfd)
      else some s
    else none

-- `hucdev_uninit(pdev)`: the descriptors that it closes.
unfoldable pub uninit : HucState → HucState × List Fd
uninit s =
    if s.listen_fd == no_fd
    then (s, [])
    else (set_fd_handler s s.listen_fd unwatched, s.listen_fd ∷ [])
