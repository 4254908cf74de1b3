-- ===== src/Tests/Data.antt =====
-- Concrete data for the tests: a machine of two vCPUs, a device, messages, a map and a queue.
use huc.Base.{
  ℕ, ◌+◌, ◌%◌, ◌^◌, refl, none, some, List, [], ◌∷◌, ◌==◌, if◌then◌else◌, ltb, arith, true, false,
  fun_ext,
}
use huc.Memory.{Memory}
use huc.Memory.Laws.{Bytes}
use huc.Msg.{Header, HostFile}
use huc.Msg.Laws.{Fits}
use huc.Hucdev.{HucState, unwatched, listenfd, acceptfd, no_fd}
use huc.Hucdev.Irq.{IrqOk}
use huc.Hucdev.Cpus.{CpuTable}
use huc.Hucdev.Cpus.Laws.{Vcpus}
use huc.Hucdev.Mmio.Affinity.{Distinct, Host}
use huc.Hucdev.Server.Watch.{Connected, Listening}
use huc.Driver.{Driver}
use huc.Daemon.Recv.{Calls}
use huc.Daemon.Recv.Loop.{Calm}
use huc.Bpf.{BpfArray}
use huc.Bpf.Log.{IsLog}
use huc.Client.{Net}
use huc.Client.Send.{Online}

-- Two vCPUs, on the threads 100 and 101.
abbrev pub thread : ℕ → ℕ
thread i = 100 + i

abbrev pub two_cpus : CpuTable
two_cpus i = if ltb i 2 then some (thread i) else none

pub two_cpus-Vcpus : Vcpus two_cpus 2 thread
two_cpus-Vcpus = record { present = λ i lt. ground arith; absent = refl }

pub thread-Distinct : Distinct 2 thread
thread-Distinct = λ i j hi hj e. omega arith

-- A device that serves the client on descriptor 7 and has an empty buffer.
abbrev pub idle_device : HucState
idle_device = record {
  ioregs = λ i. 0;
  buf = λ a. 0;
  irq_status = 0;
  irq_line = false;
  hyperthreading_remapping = false;
  listen_fd = 5;
  connect_fd = 7;
  handlers = λ fd. if 7 == fd then acceptfd else unwatched;
}

pub idle_device-IrqOk : IrqOk idle_device
idle_device-IrqOk = record {
  status_fits = omega arith;
  line_follows = (λ e. ground arith, λ ne. absurd (ne refl));
}

pub idle_device-Connected : Connected 5 7 idle_device
idle_device-Connected = record {
  on = refl;
  client = refl;
  alive = omega arith;
  apart = λ e. omega arith;
  watch = λ fd. refl;
}

-- The device before a client came.
abbrev pub listening_device : HucState
listening_device = record idle_device {
  connect_fd = no_fd;
  handlers = λ fd. if 5 == fd then listenfd else unwatched;
}

listening_device-Listening : Listening 5 listening_device
listening_device-Listening = record { on = refl; apart = refl; watch = λ fd. refl }

-- A PROGRAM_INJECTION with six bytes of payload.
abbrev pub six_header : Header
six_header = record { version = 1; type = 1; payload_len = 6 }

pub six_header-Fits : Fits six_header
six_header-Fits = record {
  version_fits = omega arith;
  type_fits = omega arith;
  len_fits = omega arith;
}

abbrev pub six_bytes : List ℕ
six_bytes = 10 ∷ 20 ∷ 30 ∷ 40 ∷ 50 ∷ 60 ∷ []

-- The device after that message arrived, and after one without a payload.
abbrev pub six_buffer : Memory
six_buffer = λ a.
    if a == 16 then 1 else if a == 17 then 1 else if a == 18 then 6 else if a == 20 then 77 else 0

pub six_buffer-Bytes : Bytes six_buffer
six_buffer-Bytes a = ground arith

abbrev pub six_device : HucState
six_device = record idle_device { buf = six_buffer; irq_status = 1; irq_line = true }

pub six_device-IrqOk : IrqOk six_device
six_device-IrqOk = record {
  status_fits = omega arith;
  line_follows = (λ e z. omega arith, λ ne. refl);
}

abbrev pub empty_device : HucState
empty_device = record idle_device { buf = λ a. if a == 17 then 1 else 0 }

empty_buffer-Bytes : Bytes empty_device.buf
empty_buffer-Bytes a = ground arith

abbrev pub asleep_driver : Driver
asleep_driver = record { flag = 0; payload_left = 0 }

abbrev pub awake_driver : Driver
awake_driver = record { flag = 2; payload_left = 0 }

abbrev pub calm_calls : Calls
calm_calls = record {
  seek_header = true;
  seek_payload = true;
  malloc = true;
  signalled = λ off. false;
  faults = λ off. false;
}

pub calm_calls-Calm : Calm calm_calls
calm_calls-Calm = record {
  seeks_header = refl;
  seeks_payload = refl;
  mallocs = refl;
  undisturbed = λ off. refl;
  mapped = λ off. refl;
}

-- An array of 64 entries as a function.
abbrev pub array : BpfArray
array = record {
  Map = ℕ → ℕ;
  lookup = λ f k. if ltb k 64 then some (f k) else none;
  update = λ f k v j. if ltb k 64 then (if k == j then v else f j) else f j;
  lookup_out = λ m k le. ground arith;
  lookup_in = λ m k lt. (m k, ground arith);
  lookup-update = λ m k v j lt. ground arith;
  update_out = λ m k v le. fun_ext (λ j. ground arith);
}

abbrev pub zeros : ℕ → ℕ
zeros j = 0

pub zeros-IsLog : IsLog array zeros []
zeros-IsLog = record { fits = omega arith; counter = refl; masks = λ i lt. ground arith }

-- A host of the CPUs 0 to 31: it refuses a mask without any of them.
abbrev pub host : Host
host t set = if set % 2 ^ 32 == 0 then none else some (set % 2 ^ 32)

-- Only the port 8888 answers.
abbrev pub online : Net
online = record { socket = true; host = true; connect = λ port. port == 8888 }

pub online-Online : Online online 8888
online-Online = record { has_socket = refl; has_host = refl; has_connection = refl }

-- A file of three bytes, and the same file with a fault behind the first byte.
abbrev pub three_file : HostFile
three_file = record { contents = 1 ∷ 2 ∷ 3 ∷ []; readable = 3 }

abbrev pub faulty_file : HostFile
faulty_file = record { contents = 1 ∷ 2 ∷ 3 ∷ []; readable = 1 }
