-- ===== src/Daemon/Main.antt =====
-- A round of the loop in `main` of guestend/daemon.c: fetch a message, save its program, fork.
use huc.Base.{ℕ, Bool, Option, none, some, List, ◌==◌, if◌then◌else◌}
use huc.Memory.{Memory}
use huc.Msg.{Header, program_injection}
use huc.Hucdev.{HucState}
use huc.Driver.{Driver}
use huc.Files.{FileCalls, save_bytecode}
use huc.Daemon.Recv.{Calls, received, failed, blocked, unfinished, recv_bytecode}
use huc.Daemon.Children.{Parent, Fork, fetching, polling, ended, handle_message}

-- The parent, and what stands in SAVED_BYTECODE_FILE (`none` if there is no such file).
pub record Daemon : Type 0 where
  pub parent : Parent
  pub file : Option (List ℕ)

-- How a round ends: in the parent's next round; in the child, which polls, or ends as `load_bpf_file`
-- failed; without a message, whose fields are then not set; in a `read` that sleeps; or without fuel.
pub data Round : Type 0 where
  serving : Daemon → Driver → ℕ → Round
  child_polling : Option (List ℕ) → Round
  child_ended : Round
  no_message : Round
  sleeping : Round
  no_fuel : Round

-- `save_bytecode(SAVED_BYTECODE_FILE, payload, payload_len)` of a PROGRAM_INJECTION: the file after it.
unfoldable pub file_after : FileCalls → Option (List ℕ) → Header → List ℕ → Option (List ℕ)
file_after files before h written =
    if h.type == program_injection
    then elim ((save_bytecode files written h.payload_len).0) [
      | none ↦ before
      | some now ↦ some now
    ]
    else before

-- The `switch` of a round. `loaded` says whether `load_bpf_file` succeeds.
unfoldable pub serve : FileCalls → Fork → Bool → Daemon → Header → List ℕ → Driver → ℕ → Round
unfolding file_after
serve files fork loaded m h written d off =
    let file = file_after files m.file h written in
    elim (handle_message m.parent h.type fork loaded) [
      | fetching p ↦ serving (record { parent = p; file = file }) d off
      | polling ↦ child_polling file
      | ended ↦ child_ended
    ]

-- The body of `while (1)` in `main`.
unfoldable pub main_round :
    Calls → HucState → ℕ → Memory → FileCalls → Fork → Bool → Daemon → Driver → ℕ → Round
unfolding serve
main_round c dev fuel stale files fork loaded m d off =
    elim (recv_bytecode c dev fuel stale d off) [
      | received h written d' off' ↦ serve files fork loaded m h written d' off'
      | failed d' off' ↦ no_message
      | blocked ↦ sleeping
      | unfinished ↦ no_fuel
    ]
