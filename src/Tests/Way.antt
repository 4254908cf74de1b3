-- ===== src/Tests/Way.antt =====
-- The whole way of a program and of a mask, on the concrete machine.
use huc.Base.{ℕ, ◌≡◌, refl, true, false, some, List, [], ◌∷◌, arith}
use huc.Msg.{Header, header_bytes}
use huc.Hucdev.{HucState, Effect, send}
use huc.Hucdev.Server.{handle_acceptfd}
use huc.Hucdev.Mmio.Affinity.{mask_after, granted}
use huc.Driver.{Driver, irq_handler, ioctl, ioctl_program_injection_result_ready}
use huc.Daemon.Recv.{recv_bytecode, received}
use huc.Client.{bytes, success, inject_byte_code}
use huc.Files.{FileCalls, save_bytecode}
use huc.Pipeline.Tool.{file_delivered}
use huc.Pipeline.Answer.{program_answered}
use huc.Pipeline.Rounds.{poll_rounds, poll_rounds-settled_all}
use huc.Bpf.Log.{IsLog}
use huc.Tests.Data.{
  host, two_cpus, two_cpus-Vcpus, thread-Distinct, idle_device, idle_device-IrqOk, asleep_driver,
  calm_calls, calm_calls-Calm, array, zeros, zeros-IsLog, online, online-Online, three_file,
  six_header, six_header-Fits, six_bytes,
}

abbrev saves_three : FileCalls
saves_three = record { fopen = true; written = 3; fclose = true }

file_delivered_example :
    (first second : List ℕ) × (t t' : HucState) × (d' : Driver) × (h : Header) × (written : List ℕ)
    × (d'' : Driver) × (off' : ℕ) × (inject_byte_code 2 (some three_file) true 0 online
        ≡ (bytes first ∷ bytes second ∷ [], success))
    × (handle_acceptfd two_cpus 3 idle_device first second 0 ≡ some (t, []))
    × (t.irq_line ≡ true)
    × (irq_handler two_cpus 3 asleep_driver t true ≡ some ((true, d'), t', []))
    × (t'.irq_line ≡ false)
    × (recv_bytecode calm_calls t' 4 (λ a. 0) d' 0 ≡ received h written d'' off')
    × (save_bytecode saves_three written h.payload_len ≡ (some (1 ∷ 2 ∷ 3 ∷ []), true))
file_delivered_example =
    file_delivered two_cpus-Vcpus 3 (omega arith) calm_calls-Calm three_file 2 0 online idle_device
      0 (λ a. 0) asleep_driver 0 4 saves_three (omega arith) online-Online
      (omega arith, (omega arith, (omega arith, tt))) (omega arith) (omega arith) (omega arith)
      idle_device-IrqOk refl (λ a. omega arith) (omega arith) refl refl refl

-- The masks 2 and 3 before the first round, 1 before the second: vCPU 1 gets the earlier mask that
-- has it, and keeps it.
poll_rounds-settled_all_example :
    (value : ℕ) × (m : ℕ → ℕ) × (out : List Effect) × (poll_rounds array two_cpus 3 idle_device 0
        zeros
        ((2 ∷ 3 ∷ []) ∷ (1 ∷ []) ∷ [])
      ≡ some (idle_device, value, m, out))
    × (mask_after host 101 255 out ≡ 2)
    × IsLog array m []
unfolding granted
poll_rounds-settled_all_example =
    poll_rounds-settled_all two_cpus-Vcpus 3 (omega arith) thread-Distinct host array idle_device 0
      zeros ((2 ∷ 3 ∷ []) ∷ (1 ∷ []) ∷ []) 1 255 zeros-IsLog (omega arith)

-- The six bytes of a program, sent back.
program_answered_example :
    (t t' t'' : HucState) × (d' : Driver) × (handle_acceptfd two_cpus 3 idle_device
        (header_bytes six_header)
        six_bytes
        0
      ≡ some (t, []))
    × (irq_handler two_cpus 3 asleep_driver t true ≡ some ((true, d'), t', []))
    × (ioctl two_cpus 3 t' ioctl_program_injection_result_ready 0 false
        ≡ some (true, t'', send 7 (header_bytes six_header) ∷ send 7 six_bytes ∷ []))
program_answered_example =
    program_answered two_cpus-Vcpus 3 (omega arith) idle_device six_header six_bytes 0 asleep_driver
      0 idle_device-IrqOk six_header-Fits refl refl
