-- ===== src/Client/Pin.antt =====
-- pinonsame.c pins all vCPUs to one CPU for a share of the test's time, then lets them go.
use huc.Base.{ℕ, ◌+◌, ◌*◌, ◌/◌, ◌<◌, ◌≡◌, true, false, [], ◌∷◌, arith}
use huc.Msg.{header_bytes}
use huc.Client.{bytes, success, failure, Net, tool_port, serial_time, pin_on_same_main}
use huc.Client.Send.{Online}

-- The sleep is the share of the duration, down to the nanosecond, in normal form.
serial_time_lem :
    (percentage duration : ℕ)
    → ((serial_time percentage duration).tv_nsec < 1_000_000_000)
      × ((serial_time percentage duration).tv_sec * 1_000_000_000
            + (serial_time percentage duration).tv_nsec
          ≡ 1_000_000_000 * duration * percentage / 100)
unfolding serial_time
serial_time_lem percentage duration = omega arith

-- Online at its port, with a positive percentage: the tool sends PIN_ON_SAME, and RESET behind it exactly if the
-- sleep comes to its end; a sleep that fails or is interrupted leaves the vCPUs pinned, with exit
-- status -1.
pub pin_on_same_main-sends :
    (percentage : ℕ) (net : Net)
    → 0 < percentage
    → Online net tool_port
    → (pin_on_same_main 3 percentage true net ≡ (
      bytes (1 ∷ 18 ∷ 4 ∷ 0 ∷ [])
          ∷ bytes (0 ∷ 0 ∷ 0 ∷ 0 ∷ [])
          ∷ bytes (1 ∷ 17 ∷ 4 ∷ 0 ∷ [])
          ∷ bytes (7 ∷ 7 ∷ 7 ∷ 7 ∷ [])
          ∷ [],
      success,
    ))
      × (pin_on_same_main 3 percentage false net
          ≡ (bytes (1 ∷ 18 ∷ 4 ∷ 0 ∷ []) ∷ bytes (0 ∷ 0 ∷ 0 ∷ 0 ∷ []) ∷ [], failure))
unfolding pin_on_same_main header_bytes
pin_on_same_main-sends percentage net pos on = (
  ground (arith, on.has_socket, on.has_host, on.has_connection),
  ground (arith, on.has_socket, on.has_host, on.has_connection),
)
