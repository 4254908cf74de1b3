-- ===== src/Pipeline/Sessions.antt =====
-- One injection after the other: the device, the driver and the daemon's parent process, from message to
-- message.
use huc.Base.{
  ℕ, ◌≤◌, ◌<◌, ◌≡◌, refl, ap, ◌∙◌, Option, none, some, List, [], ◌∷◌, arith, true, length, take,
}
use huc.Memory.{Memory}
use huc.Memory.Laws.{Bytes, AllBytes}
use huc.Msg.{Header, header_bytes, program_injection}
use huc.Msg.Laws.{Fits}
use huc.Hucdev.{HucState}
use huc.Hucdev.Irq.{IrqOk}
use huc.Hucdev.Cpus.{CpuTable}
use huc.Hucdev.Cpus.Laws.{Vcpus}
use huc.Hucdev.Server.{handle_acceptfd}
use huc.Driver.{Driver, irq_handler}
use huc.Files.{FileCalls, save_bytecode}
use huc.Daemon.Recv.{Calls}
use huc.Daemon.Recv.Loop.{Calm}
use huc.Daemon.Children.{in_parent, handle_message}
use huc.Daemon.Children.Single.{IsSingle, kill_old-IsSingle}
use huc.Daemon.Main.{Daemon, Round, serving, main_round, serve, file_after}
use huc.Pipeline.{injection_settles}

-- Everything between the client and the daemon's child, with the offset of the daemon's descriptor.
pub record World : Type 0 where
  pub dev : HucState
  pub driver : Driver
  pub daemon : Daemon
  pub off : ℕ

-- One injection: the message, what is uninitialised on its way, and the pid that `fork` returns.
pub record Job : Type 0 where
  pub header : Header
  pub payload : List ℕ
  pub junk : ℕ
  pub stale : Memory
  pub pid : ℕ

-- The calls of `save_bytecode` for a message that is saved.
abbrev pub saves : Header → FileCalls
saves h = record { fopen = true; written = h.payload_len; fclose = true }

module _ (get_cpu : CpuTable) (fuel : ℕ) (c : Calls) (rounds : ℕ) where
  -- What the parent's round makes of the world.
  abbrev resume : HucState → Round → Option World
  resume dev (serving m d off) = some (record { dev = dev; driver = d; daemon = m; off = off })
  resume dev other = none

  -- The message comes, the interrupt is served, and the daemon goes through a round, in the parent.
  unfoldable pub inject : World → Job → Option World
  inject w j = elim (handle_acceptfd get_cpu fuel w.dev (header_bytes j.header) j.payload j.junk) [
    | none ↦ none
    | some (t, out) ↦ elim (irq_handler get_cpu fuel w.driver t true) [
      | none ↦ none
      | some ((mine, d), t', out') ↦
          resume t' (
            main_round c t' rounds j.stale (saves j.header) (in_parent j.pid) true w.daemon d w.off)
    ]
  ]

  unfoldable pub inject_all : World → List Job → Option World
  inject_all w [] = some w
  inject_all w (j ∷ js) = elim (inject w j) [ none ↦ none | some w' ↦ inject_all w' js ]

-- A program of 1 to 65516 bytes that comes whole.
pub record Whole (rounds : ℕ) (j : Job) : Type 0 where
  pub all : AllBytes j.payload
  pub fits : Fits j.header
  pub type : j.header.type ≡ program_injection
  pub pos : 0 < j.header.payload_len
  pub short : j.header.payload_len ≤ 65516
  pub whole : length j.payload ≡ j.header.payload_len
  pub few : j.header.payload_len < rounds

abbrev pub AllWhole : ℕ → List Job → Type 0
AllWhole rounds [] = Unit
AllWhole rounds (j ∷ js) = Whole rounds j × AllWhole rounds js

-- The device is idle with its status clear, and the daemon has no child but the one it remembers.
pub record Ready (w : World) : Type 0 where
  pub irq : IrqOk w.dev
  pub clear : w.dev.irq_status ≡ 0
  pub bytes : Bytes w.dev.buf
  pub single : IsSingle w.daemon.parent

-- The daemon once it has the program of `j`: one child, and the program in the file.
abbrev pub holding : Job → Daemon
holding j = record {
  parent = record { child_pid = some j.pid; unkilled = j.pid ∷ [] };
  file = some j.payload;
}

-- The daemon after the last of the jobs.
abbrev pub daemon_after : Daemon → List Job → Daemon
daemon_after m [] = m
daemon_after m (j ∷ js) = daemon_after (holding j) js

-- A round in which a program came.
serve-holding :
    (m : Daemon) (j : Job) (written : List ℕ) (d : Driver) (off : ℕ)
    → j.header.type ≡ program_injection
    → take j.header.payload_len written ≡ j.payload
    → IsSingle m.parent
    → serve (saves j.header) (in_parent j.pid) true m j.header written d off
      ≡ serving (holding j) d off
unfolding serve file_after handle_message save_bytecode
serve-holding m j written d off type is single =
    ground (arith, type, is, kill_old-IsSingle m.parent.child_pid m.parent.unkilled single)

module _ {get_cpu : CpuTable} {n : ℕ} {thread : ℕ → ℕ} (v : Vcpus get_cpu n thread) (fuel : ℕ)
    (enough : n < fuel) {c : Calls} (calm : Calm c) (rounds : ℕ) where
  inject-Ready :
      (w : World) (j : Job)
      → Ready w
      → Whole rounds j
      → (w' : World) × (inject get_cpu fuel c rounds w j ≡ some w')
        × Ready w'
        × (w'.daemon ≡ holding j)
        × (w'.driver.flag ≡ 0)
  unfolding inject main_round
  inject-Ready w j q ok =
      let (t, t', d, written, d', off', stored, _, acks, _, fetched, is, quiet, irq, clear, bytes) =
        injection_settles v fuel enough calm w.dev j.header j.payload j.junk j.stale w.driver w.off
          rounds q.irq q.clear q.bytes ok.all ok.fits ok.type ok.pos ok.short ok.whole ok.few in
      let served = serve-holding w.daemon j written d' off' ok.type is q.single in
      (
        record { dev = t'; driver = d'; daemon = holding j; off = off' },
        ground (arith, stored, acks, fetched, served),
        record { irq = irq; clear = clear; bytes = bytes; single = refl },
        refl,
        quiet,
      )

  -- Any number of injections. On an idle device whose daemon has at most the child that it remembers,
  -- and with all calls of the daemon succeeding, programs of 1 to 65516 bytes each that come whole, one
  -- after the other, all go through: the daemon ends with the last program in its file, the last child
  -- as the only one alive, and device and daemon as ready as before.
  pub inject_all-Ready :
      (w : World) (jobs : List Job)
      → Ready w
      → AllWhole rounds jobs
      → (w' : World) × (inject_all get_cpu fuel c rounds w jobs ≡ some w')
        × Ready w'
        × (w'.daemon ≡ daemon_after w.daemon jobs)
  unfolding inject_all
  inject_all-Ready w [] q ok = (w, refl, q, refl)
  inject_all-Ready w (j ∷ js) q ok =
      let (w1, e, q1, has, _) = inject-Ready w j q ok.0 in
      let (w2, e', q2, has') = inject_all-Ready w1 js q1 ok.1 in
      (w2, ground (arith, e, e'), q2, has' ∙ ap (λ m. daemon_after m js) has)
