-- ===== src/Tests/Machine.antt =====
-- Interleavings of messages, interrupts and reads on the concrete device, and injections in sequence.
use huc.Base.{
  ◌⊎◌, ℕ, ◌-◌, ◌≡◌, refl, true, false, some, none, List, [], ◌∷◌, length, take, arith,
  if◌then◌else◌, ◌==◌,
}
use huc.Memory.{Memory, load_bytes, load32}
use huc.Memory.Laws.{Bytes}
use huc.Msg.{header_at}
use huc.Hucdev.Irq.{IrqOk}
use huc.Driver.{irq_handler, Driver, read, asleep}
use huc.Daemon.Recv.Loop.{round_up}
use huc.Daemon.Recv.{recv_bytecode, received}
use huc.Daemon.Recv.Whole.{recv_bytecode-received}
use huc.Machine.{Machine, waiting, in_payload, fetched, Step, Reach}
use huc.Machine.Invariant.{MachineOk}
use huc.Machine.Fetch.{recv_bytecode-Reach}
use huc.Machine.Safety.{fetched_whole}
use huc.Machine.Late.{late_interrupt}
use huc.Pipeline.Sessions.{World, Job, Whole, Ready, inject_all, inject_all-Ready, holding}
use huc.Tests.Data.{
  two_cpus, two_cpus-Vcpus, idle_device, idle_device-IrqOk, six_device, six_device-IrqOk,
  six_buffer, six_buffer-Bytes, six_header, six_header-Fits, six_bytes, asleep_driver, awake_driver,
  calm_calls, calm_calls-Calm,
}

abbrev six_machine : Machine
six_machine = record { dev = six_device; driver = awake_driver; daemon = waiting; arrived = true }

six_machine-MachineOk : MachineOk six_machine
unfolding header_at
six_machine-MachineOk = record {
  irq = six_device-IrqOk;
  bytes = six_buffer-Bytes;
  fits = omega arith;
  daemon_ok = tt;
}

abbrev six_read : List ℕ
six_read = 77 ∷ 0 ∷ 0 ∷ 0 ∷ 0 ∷ 0 ∷ 0 ∷ 0 ∷ []

-- What the machine is after an undisturbed fetch.
abbrev fetched_machine : Driver → Machine
fetched_machine d = record {
  dev = six_device;
  driver = d;
  daemon = fetched six_header six_read;
  arrived = false;
}

six_fetched :
    (d : Driver) × (off : ℕ) × (recv_bytecode calm_calls six_device 7 (λ a. 0) awake_driver 0
      ≡ received six_header six_read d off)
unfolding header_at load_bytes
six_fetched =
    let (d, off, e, _) =
      recv_bytecode-received calm_calls-Calm six_device six_buffer-Bytes 7 (λ a. 0) awake_driver 0
        refl (omega arith) (omega arith) (omega arith) in
    (d, off, e)

six_machine-Reach : Reach two_cpus 3 six_machine (fetched_machine six_fetched.0)
six_machine-Reach =
    recv_bytecode-Reach two_cpus 3 calm_calls-Calm six_device true 7 (λ a. 0) awake_driver 0
      six_header six_read six_fetched.0 six_fetched.1 six_fetched.2

fetched_whole_example :
    (length six_read ≡ round_up 6)
    × ((false ≡ true)
        ⊎ ((six_header ≡ header_at six_buffer 16) × (take 6 six_read ≡ load_bytes six_buffer 20 6)))
fetched_whole_example =
    fetched_whole two_cpus-Vcpus 3 (omega arith) six_header six_read six_machine-Reach
      six_machine-MachineOk refl

-- The same device with a program of twelve zeros.
abbrev twelve_buffer : Memory
twelve_buffer = λ a. if a == 16 then 1 else if a == 17 then 1 else if a == 18 then 12 else 0

twelve_buffer-Bytes : Bytes twelve_buffer
twelve_buffer-Bytes a = ground arith

abbrev twelve_machine : Machine
twelve_machine = record six_machine { dev = record six_device { buf = twelve_buffer } }

twelve_device-IrqOk : IrqOk twelve_machine.dev
twelve_device-IrqOk = record {
  status_fits = omega arith;
  line_follows = (λ e z. omega arith, λ ne. refl);
}

twelve_machine-MachineOk : MachineOk twelve_machine
unfolding header_at
twelve_machine-MachineOk = record {
  irq = twelve_device-IrqOk;
  bytes = twelve_buffer-Bytes;
  fits = omega arith;
  daemon_ok = tt;
}

late_interrupt_example :
    (r t u w : Machine) × Step two_cpus 3 twelve_machine r
    × (r.daemon
        ≡ in_payload (header_at twelve_buffer 16) (header_at twelve_buffer 16).payload_len [] 20)
    × Step two_cpus 3 r t
    × (irq_handler two_cpus 3 r.driver r.dev true ≡ some ((true, t.driver), t.dev, []))
    × (t.daemon ≡ r.daemon)
    × Step two_cpus 3 t u
    × (u.driver ≡ record { flag = 1; payload_left = 0 })
    × Step two_cpus 3 u w
    × (w.daemon
        ≡ in_payload
            (header_at twelve_buffer 16)
            ((header_at twelve_buffer 16).payload_len - 8)
            (load_bytes twelve_buffer 20 8)
            28)
    × (read w.driver w.dev 28 4 false false ≡ asleep)
    × (w.dev.irq_line ≡ false)
unfolding header_at load32
late_interrupt_example =
    late_interrupt two_cpus 3 twelve_machine twelve_machine-MachineOk refl refl refl refl
      (omega arith) (omega arith)

-- Two injections on an idle device, the first child with pid 31 and the second with pid 32.
abbrev quiet_world : World
quiet_world = record {
  dev = idle_device;
  driver = asleep_driver;
  daemon = record { parent = record { child_pid = none; unkilled = [] }; file = none };
  off = 0;
}

abbrev six_job : ℕ → Job
six_job pid = record {
  header = six_header;
  payload = six_bytes;
  junk = 0;
  stale = λ a. 0;
  pid = pid;
}

six_job-Whole : (pid : ℕ) → Whole 7 (six_job pid)
six_job-Whole pid = record {
  all =
      (omega arith, (omega arith, (omega arith, (omega arith, (omega arith, (omega arith, tt))))));
  fits = six_header-Fits;
  type = refl;
  pos = omega arith;
  short = omega arith;
  whole = refl;
  few = omega arith;
}

quiet_world-Ready : Ready quiet_world
quiet_world-Ready = record {
  irq = idle_device-IrqOk;
  clear = refl;
  bytes = λ a. omega arith;
  single = refl;
}

inject_all-Ready_example :
    (w : World) × (inject_all two_cpus 3 calm_calls 7 quiet_world (six_job 31 ∷ six_job 32 ∷ [])
      ≡ some w)
    × Ready w
    × (w.daemon ≡ holding (six_job 32))
inject_all-Ready_example =
    inject_all-Ready two_cpus-Vcpus 3 (omega arith) calm_calls-Calm 7 quiet_world
      (six_job 31 ∷ six_job 32 ∷ []) quiet_world-Ready (six_job-Whole 31, (six_job-Whole 32, tt))
