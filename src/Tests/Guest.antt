-- ===== src/Tests/Guest.antt =====
-- The driver and the daemon, on the concrete device.
use huc.Base.{
  ℕ, ◌+◌, ◌%◌, ◌^◌, ◌<◌, ◌≡◌, ◌≢◌, ◌↔◌, ◌⊎◌, refl, true, false, some, List, [], ◌∷◌, arith, length,
}
use huc.Memory.{load_bytes}
use huc.Msg.{header_at}
use huc.Hucdev.{Effect}
use huc.Hucdev.Mmio.Affinity.{mask_after, granted}
use huc.Driver.{Driver, ioctl, ioctl_sched_setaffinity}
use huc.Driver.Interrupt.{ioctl-set_affinity}
use huc.Daemon.Recv.{recv_bytecode, received}
use huc.Daemon.Recv.Whole.{recv_bytecode-received, recv_bytecode-overrun}
use huc.Bpf.Log.{IsLog}
use huc.Daemon.Poll.{poll}
use huc.Daemon.Poll.Scan.{nonzero}
use huc.Daemon.Poll.Drain.{log_all, poll-log_all}
use huc.Daemon.Masks.{find_position, at, minus_one}
use huc.Daemon.Masks.Find.{find_position_lem}
use huc.Tests.Data.{
  host, two_cpus, two_cpus-Vcpus, thread-Distinct, idle_device, six_device, six_buffer-Bytes,
  awake_driver, calm_calls, calm_calls-Calm, array, zeros, zeros-IsLog,
}

-- The mask 2 ^ 40 + 2 reaches the device as 2.
ioctl-set_affinity_example :
    (out : List Effect) × (ioctl two_cpus 3 idle_device ioctl_sched_setaffinity (2 ^ 40 + 2) false
      ≡ some (true, idle_device, out))
    × (mask_after host 101 255 out ≡ 2)
unfolding granted
ioctl-set_affinity_example =
    ioctl-set_affinity two_cpus-Vcpus 3 (omega arith) thread-Distinct host idle_device (2 ^ 40 + 2)
      1 255 (omega arith)

recv_bytecode-received_example :
    (d' : Driver) × (off' : ℕ) × (recv_bytecode calm_calls six_device 7 (λ a. 0) awake_driver 0
      ≡ received (header_at six_device.buf 16) (load_bytes six_device.buf 20 8) d' off')
    × (d'.flag ≡ 0)
unfolding header_at
recv_bytecode-received_example =
    recv_bytecode-received calm_calls-Calm six_device six_buffer-Bytes 7 (λ a. 0) awake_driver 0
      refl (omega arith) (omega arith) (omega arith)

-- Six bytes announced, eight written.
recv_bytecode-overrun_example :
    (written : List ℕ) × (d' : Driver) × (off' : ℕ) × (recv_bytecode calm_calls six_device 7
        (λ a. 0)
        awake_driver
        0
      ≡ received (header_at six_device.buf 16) written d' off')
    × (length written ≡ 8)
    × ((6 < length written) ↔ (6 % 4 ≢ 0))
unfolding header_at
recv_bytecode-overrun_example =
    recv_bytecode-overrun calm_calls-Calm six_device six_buffer-Bytes 7 (λ a. 0) awake_driver 0 refl
      (omega arith) (omega arith) (omega arith)

-- Three calls, one of them with an empty mask.
poll-log_all_example :
    let (sent, value, m') = poll array 0 (log_all array zeros (5 ∷ 0 ∷ 6 ∷ [])) in
    (sent ≡ 3 ∷ 6 ∷ 5 ∷ []) × (value ≡ 0) × IsLog array m' []
unfolding nonzero
poll-log_all_example =
    poll-log_all array 0 zeros (5 ∷ 0 ∷ 6 ∷ []) zeros-IsLog (omega arith) (omega arith)

find_position_lem_example :
    ((k : ℕ) × (k < 64) × (12 ≡ 2 ^ k) × (find_position 12 ≡ some (at k)))
    ⊎ ((¬ ((k : ℕ) × (12 ≡ 2 ^ k))) × (find_position 12 ≡ some minus_one))
find_position_lem_example = find_position_lem 12 (omega arith)
