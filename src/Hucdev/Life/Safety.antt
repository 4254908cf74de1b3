-- ===== src/Hucdev/Life/Safety.antt =====
-- The whole life of the device: what ends the virtual machine, and what holds until then.
use huc.Base.{
  ℕ, ◌^◌, ◌<◌, ◌≡◌, ◌≢◌, ◌⊎◌, inl, inr, refl, ap, ◌∙◌, sym, true, false, none, some, List, [], ◌∷◌,
  ◌++◌, arith, Bool-cases,
}
use huc.Memory.Laws.{AllBytes}
use huc.Hucdev.{Fd, HucState, Effect, Handler, listenfd, acceptfd, unwatched, raise_irq, lower_irq}
use huc.Hucdev.Cpus.{CpuTable}
use huc.Hucdev.Cpus.Laws.{Vcpus}
use huc.Hucdev.Regs.{io_write, io_dispatch}
use huc.Hucdev.Mmio.{bufmmio_write, doorbell, set_affinity}
use huc.Hucdev.Mmio.Laws.{bufmmio_write-IrqOk, result_of}
use huc.Hucdev.Server.Watch.{Serving, SameSockets, same-Connected, accept, message, Step-Serving}
use huc.Hucdev.Life.{
  Event, io_access, mmio_access, client_comes, client_sends, quietly, if_listening, if_accepted,
  handle, run, aborts, any_aborts,
}
use huc.Hucdev.Life.Typed.{
  Typed, io_write-Typed, bufmmio_write-Typed, handle_listenfd-Typed, handle_acceptfd-Typed,
}

-- The state is well typed, and the server waits for a client or serves one.
pub record DeviceOk (l : Fd) (s : HucState) : Type 0 where
  pub typed : Typed s
  pub serving : Serving l s

-- A new client's descriptor is valid and not the listening one; what `recv` delivers are bytes.
abbrev pub EventOk : Fd → Event → Type 0
EventOk l (io_access addr val) = Unit
EventOk l (mmio_access addr val size) = Unit
EventOk l (client_comes c) = (c < 2 ^ 31) × (l ≢ c)
EventOk l (client_sends first second junk) = AllBytes first × AllBytes second

abbrev pub EventsOk : Fd → List Event → Type 0
EventsOk l [] = Unit
EventsOk l (e ∷ es) = EventOk l e × EventsOk l es

module _ (get_cpu : CpuTable) (fuel : ℕ) where
  io_write-SameSockets :
      {s t : HucState} (addr val : ℕ) → io_write s addr val ≡ some t → SameSockets get_cpu fuel s t
  unfolding io_write io_dispatch raise_irq lower_irq
  io_write-SameSockets addr val e = ground arith

  bufmmio_write-SameSockets :
      {s t : HucState} {out : List Effect} (addr val size : ℕ)
      → bufmmio_write get_cpu fuel s addr val size ≡ some (t, out)
      → SameSockets get_cpu fuel s t
  unfolding bufmmio_write doorbell set_affinity raise_irq lower_irq
  bufmmio_write-SameSockets addr val size e = ground arith

  same-Serving :
      {s t : HucState} (l : Fd) → SameSockets get_cpu fuel s t → Serving l s → Serving l t
  same-Serving l k (inl q) = inl (record {
    on = k.listen_kept ∙ q.on;
    apart = k.connect_kept ∙ q.apart;
    watch = λ fd. k.handlers_kept fd ∙ q.watch fd;
  })
  same-Serving l k (inr (c, q)) = inr (c, same-Connected get_cpu fuel l c k q)

  Serving-listen_fd : {s : HucState} (l : Fd) → Serving l s → s.listen_fd ≡ l
  Serving-listen_fd l (inl q) = q.on
  Serving-listen_fd l (inr (c, q)) = q.on

module _ {get_cpu : CpuTable} {n : ℕ} {thread : ℕ → ℕ} (v : Vcpus get_cpu n thread) (fuel : ℕ)
    (enough : n < fuel) where
  io_access-DeviceOk :
      (l : Fd) (s : HucState) (addr val : ℕ)
      → DeviceOk l s
      → aborts (io_access addr val) ≡ false
      → (t : HucState) × (io_write s addr val ≡ some t) × DeviceOk l t
  unfolding io_write
  io_access-DeviceOk l s addr val q keeps =
      let (t, e) =
        result_of (io_write s addr val) (λ none_left. ground (arith, none_left, keeps)) in
      (
        t,
        e,
        record {
          typed = io_write-Typed addr val q.typed e;
          serving =
              same-Serving get_cpu fuel l (io_write-SameSockets get_cpu fuel addr val e) q.serving;
        },
      )

  mmio_access-DeviceOk :
      (l : Fd) (s : HucState) (addr val size : ℕ)
      → DeviceOk l s
      → (t : HucState) × (out : List Effect) × (bufmmio_write get_cpu fuel s addr val size
          ≡ some (t, out))
        × DeviceOk l t
  mmio_access-DeviceOk l s addr val size q =
      let (t, out, e, _) = bufmmio_write-IrqOk v fuel enough s addr val size q.typed.irq in
      (
        t,
        out,
        e,
        record {
          typed = bufmmio_write-Typed get_cpu fuel addr val size q.typed e;
          serving =
              same-Serving get_cpu fuel l (bufmmio_write-SameSockets get_cpu fuel addr val size e)
                q.serving;
        },
      )

  client_comes-DeviceOk :
      (l : Fd) (s : HucState) (c : Fd) (h : Handler)
      → s.handlers s.listen_fd ≡ h
      → EventOk l (client_comes c)
      → DeviceOk l s
      → DeviceOk l (if_listening s h c)
  client_comes-DeviceOk l s c listenfd on ok q = record {
    typed = handle_listenfd-Typed c q.typed;
    serving =
        Step-Serving get_cpu fuel l
          (accept c on ok.0 (λ e. ok.1 (sym (Serving-listen_fd get_cpu fuel l q.serving) ∙ e)))
          q.serving;
  }
  client_comes-DeviceOk l s c acceptfd on ok q = q
  client_comes-DeviceOk l s c unwatched on ok q = q

  client_sends-DeviceOk :
      (l : Fd) (s : HucState) (first second : List ℕ) (junk : ℕ) (h : Handler)
      → s.handlers s.connect_fd ≡ h
      → EventOk l (client_sends first second junk)
      → DeviceOk l s
      → (t : HucState) × (out : List Effect) × (if_accepted get_cpu fuel s h first second junk
          ≡ some (t, out))
        × DeviceOk l t
  client_sends-DeviceOk l s first second junk acceptfd on ok q =
      let (t, out, e, typed) =
        handle_acceptfd-Typed v fuel enough first second junk ok.0 ok.1 q.typed in
      (
        t,
        out,
        e,
        record {
          typed = typed;
          serving = Step-Serving get_cpu fuel l (message first second junk on e) q.serving;
        },
      )
  client_sends-DeviceOk l s first second junk listenfd on ok q = (s, [], refl, q)
  client_sends-DeviceOk l s first second junk unwatched on ok q = (s, [], refl, q)

  handle-DeviceOk :
      (l : Fd) (s : HucState) (e : Event)
      → EventOk l e
      → DeviceOk l s
      → aborts e ≡ false
      → (t : HucState) × (out : List Effect) × (handle get_cpu fuel s e ≡ some (t, out))
        × DeviceOk l t
  unfolding handle
  handle-DeviceOk l s (io_access addr val) ok q keeps =
      let (t, e, q') = io_access-DeviceOk l s addr val q keeps in (t, [], ap quietly e, q')
  handle-DeviceOk l s (mmio_access addr val size) ok q keeps =
      mmio_access-DeviceOk l s addr val size q
  handle-DeviceOk l s (client_comes c) ok q keeps =
      (if_listening s (s.handlers s.listen_fd) c, [], refl, client_comes-DeviceOk l s c _ refl ok q)
  handle-DeviceOk l s (client_sends first second junk) ok q keeps =
      client_sends-DeviceOk l s first second junk (s.handlers s.connect_fd) refl ok q

  handle-aborts : (s : HucState) (e : Event) → aborts e ≡ true → handle get_cpu fuel s e ≡ none
  unfolding handle io_write
  handle-aborts s (io_access addr val) dies =
      ap quietly {x = io_write s addr val} {y = none} (ground (arith, dies))
  handle-aborts s (mmio_access addr val size) dies = absurd (cc (dies))
  handle-aborts s (client_comes c) dies = absurd (cc (dies))
  handle-aborts s (client_sends first second junk) dies = absurd (cc (dies))

  -- The life of the device, for any sequence of writes by the guest, clients whose descriptors are
  -- valid and not the listening one, and messages, whole or not, from a well-formed state on. It ends
  -- the virtual machine exactly if one of the writes is to the registers 16 to 91. Otherwise it goes
  -- through all of them; then the registers and the status have 32 bits, the buffer holds bytes, the
  -- line is high exactly while a status bit is set, and the server waits for a client or serves one.
  pub run-DeviceOk :
      (l : Fd) (s : HucState) (es : List Event)
      → EventsOk l es
      → DeviceOk l s
      → ((any_aborts es ≡ true) × (run get_cpu fuel s es ≡ none))
        ⊎ ((any_aborts es ≡ false)
            × (t : HucState) × (out : List Effect) × (run get_cpu fuel s es ≡ some (t, out))
            × DeviceOk l t)
  unfolding run
  run-DeviceOk l s [] ok q = inr (refl, s, [], refl, q)
  run-DeviceOk l s (e ∷ es) ok q = elim (Bool-cases (aborts e)) [
    | inl dies ↦ inl (ground (arith, dies), ground (arith, handle-aborts s e dies))
    | inr keeps ↦
        let (t, out, step, q') = handle-DeviceOk l s e ok.0 q keeps in
        elim (run-DeviceOk l t es ok.1 q') [
          | inl (dies, rest) ↦ inl (ground (arith, keeps, dies), ground (arith, step, rest))
          | inr (lives, u, out', rest, q'') ↦
              inr (ground (arith, keeps, lives), u, out ++ out', ground (arith, step, rest), q'')
        ]
  ]
