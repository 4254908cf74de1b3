-- ===== src/Machine/Safety.antt =====
-- What a finished fetch holds, whenever messages and interrupts came.
use huc.Base.{
  ℕ, ◌+◌, ◌-◌, ◌%◌, ◌^◌, ◌≤◌, ◌<◌, ◌≡◌, refl, ap, ap₂, ◌∙◌, sym, Bool, true, false, some, List, [],
  ◌++◌, length, length-append, u32, arith, take, ◌⊎◌, inl, inr,
}
use mathlib.Core.Path.{subst}
use huc.Memory.{Memory, store_bytes, load_bytes}
use huc.Memory.Laws.{Bytes, length-load_bytes, load_bytes-append, take-load_bytes}
use huc.Msg.{Header, header_at, header_size}
use huc.Hucdev.Cpus.{CpuTable}
use huc.Hucdev.Cpus.Laws.{Vcpus}
use huc.Driver.{Driver, read, returned, not_positive}
use huc.Daemon.Recv.Loop.{round_up}
use huc.Daemon.Recv.Whole.{header_at-copy}
use huc.Machine.{
  Fetching, in_payload, fetched, Machine, Step, arrive, interrupt, read_header, read_word, finish,
  again, Reach, here, next,
}
use huc.Machine.Invariant.{
  Progress, Complete, DaemonOk, MachineOk, read_returned, arrive-MachineOk, interrupt-MachineOk,
}

-- The header is the one in the buffer when it is read.
read_header-Progress :
    (s : Machine) (stale : Memory) (len : ℕ) (bytes : List ℕ) (d : Driver) (off : ℕ)
    → read s.driver s.dev 16 header_size false false ≡ returned (some len) bytes d off
    → MachineOk s
    → let h = header_at (store_bytes stale 0 bytes) 0 in
      Progress s.dev.buf false h h.payload_len [] 20
unfolding load_bytes
read_header-Progress s stale len bytes d off e q =
    let (_, is, _) =
      read_returned s.driver s.dev 16 len bytes d off q.bytes (omega arith) (omega arith)
        (omega arith) e in
    let head : header_at (store_bytes stale 0 bytes) 0 ≡ header_at s.dev.buf 16 =
      ap (λ b. header_at (store_bytes stale 0 b) 0) is ∙ header_at-copy stale s.dev.buf in
    let small : (header_at (store_bytes stale 0 bytes) 0).payload_len ≤ 65516 =
      subst (λ (h : Header). h.payload_len ≤ 65516) (sym head) q.fits in
    record {
      small = small;
      off_at = refl;
      words = refl;
      within = omega arith;
      left_at = omega (arith, small);
      same = λ e. (sym head, refl);
    }

-- Four more bytes.
read_word-Progress :
    (s : Machine) (h : Header) (left : ℕ) (written : List ℕ) (off len : ℕ) (bytes : List ℕ)
    (d : Driver) (off' : ℕ)
    → not_positive left ≡ false
    → read s.driver s.dev off 4 false false ≡ returned (some len) bytes d off'
    → Bytes s.dev.buf
    → Progress s.dev.buf s.arrived h left written off
    → Progress s.dev.buf s.arrived h ((left + 2 ^ 32 - u32 len) % 2 ^ 32) (written ++ bytes) off'
read_word-Progress s h left written off len bytes d off' more e all p =
    let room : length written < h.payload_len =
      ground (arith, p.left_at, p.small, p.within, p.words) in
    let (four, is, on) =
      read_returned s.driver s.dev off len bytes d off' all (omega (arith, p.off_at, p.words))
        (omega (arith, p.off_at)) (omega (arith, p.off_at, p.small, room)) e in
    let size : length (written ++ bytes) ≡ length written + 4 =
      length-append written bytes
      ∙ ap (λ t. length written + t) (ap length is ∙ length-load_bytes s.dev.buf off 4) in
    record {
      small = p.small;
      off_at = omega (arith, p.off_at, on, size);
      words = omega (arith, p.words, size);
      within = omega (arith, p.words, size, room);
      left_at = omega (arith, four, p.left_at, size, p.small, room);
      same = λ fresh.
          let (head, so_far) = p.same fresh in
          (
            head,
            ap₂ (λ xs ys. xs ++ ys) so_far (is ∙ ap (λ a. load_bytes s.dev.buf a 4) p.off_at)
                ∙ sym (load_bytes-append s.dev.buf 20 (length written) 4)
                ∙ ap (load_bytes s.dev.buf 20) (sym size),
          );
    }

finish-Complete :
    (m : Memory) (a : Bool) (h : Header) (left : ℕ) (written : List ℕ) (off : ℕ)
    → not_positive left ≡ true
    → Progress m a h left written off
    → Complete m a h written
finish-Complete m a h left written off done p = record {
  size = ground (arith, p.left_at, p.small, p.within, p.words);
  same = p.same;
}

module _ {get_cpu : CpuTable} {n : ℕ} {thread : ℕ → ℕ} (v : Vcpus get_cpu n thread) (fuel : ℕ)
    (enough : n < fuel) where
  -- What the daemon has, when it is known where it stands.
  daemon_at :
      (s : Machine) (f : Fetching) → s.daemon ≡ f → MachineOk s → DaemonOk s.dev.buf s.arrived f
  daemon_at s f at q = subst (DaemonOk s.dev.buf s.arrived) at q.daemon_ok

  Step-MachineOk : {s t : Machine} → Step get_cpu fuel s t → MachineOk s → MachineOk t
  Step-MachineOk {s} (arrive h second junk t out all f type short le e) q =
      arrive-MachineOk v fuel enough s h second junk t out all f type le e q
  Step-MachineOk {s} (interrupt d t out line e) q = interrupt-MachineOk v fuel enough s d t out e q
  Step-MachineOk {s} (read_header stale len bytes d off at e) q = record {
    irq = q.irq;
    bytes = q.bytes;
    fits = q.fits;
    daemon_ok = read_header-Progress s stale len bytes d off e q;
  }
  Step-MachineOk {s} (read_word h left written off len bytes d off' at more e) q = record {
    irq = q.irq;
    bytes = q.bytes;
    fits = q.fits;
    daemon_ok =
        read_word-Progress s h left written off len bytes d off' more e q.bytes
          (daemon_at s (in_payload h left written off) at q);
  }
  Step-MachineOk {s} (finish h left written off at done) q = record {
    irq = q.irq;
    bytes = q.bytes;
    fits = q.fits;
    daemon_ok =
        finish-Complete s.dev.buf s.arrived h left written off done
          (daemon_at s (in_payload h left written off) at q);
  }
  Step-MachineOk (again h written at) q = record {
    irq = q.irq;
    bytes = q.bytes;
    fits = q.fits;
    daemon_ok = tt;
  }

  Reach-MachineOk : {s t : Machine} → Reach get_cpu fuel s t → MachineOk s → MachineOk t
  Reach-MachineOk here q = q
  Reach-MachineOk (next r st) q = Step-MachineOk st (Reach-MachineOk r q)

  -- However PROGRAM_INJECTIONs of at most 65516 bytes, interrupts and the daemon's reads interleave,
  -- from a well-formed state on: a finished fetch has written its header's length, rounded up to whole
  -- words; and if no message came since its header was read, the header and the payload are those that
  -- lie in the device's buffer.
  pub fetched_whole :
      {s t : Machine} (h : Header) (written : List ℕ)
      → Reach get_cpu fuel s t
      → MachineOk s
      → t.daemon ≡ fetched h written
      → (length written ≡ round_up h.payload_len)
        × ((t.arrived ≡ true)
            ⊎ ((h ≡ header_at t.dev.buf 16)
                × (take h.payload_len written ≡ load_bytes t.dev.buf 20 h.payload_len)))
  fetched_whole {s} {t} h written r q at =
      let c = daemon_at t (fetched h written) at (Reach-MachineOk r q) in
      (c.size, fresh_or_not t.arrived refl c)
    where
      fresh_or_not :
          (a : Bool)
          → t.arrived ≡ a
          → Complete t.dev.buf t.arrived h written
          → (t.arrived ≡ true)
            ⊎ ((h ≡ header_at t.dev.buf 16)
                × (take h.payload_len written ≡ load_bytes t.dev.buf 20 h.payload_len))
      fresh_or_not true e c = inl e
      fresh_or_not false e c =
          let (head, is) = c.same e in
          inr (
            sym head,
            ap (take h.payload_len) is
                ∙ take-load_bytes t.dev.buf 20 h.payload_len (length written)
                    (omega (arith, c.size)),
          )
