-- ===== src/Daemon/Children.antt =====
-- What `main` of guestend/daemon.c does with a fetched message: the file that it saves, and the child
-- processes that load and poll.
pub mod Single
pub mod Orphans
use huc.Base.{ℕ, Bool, true, false, Option, none, some, List, [], ◌∷◌, ◌==◌, if◌then◌else◌}
use huc.Msg.{Header, program_injection}

-- The parent's `child_pid` (`none` is -1), and the children that it forked and has not killed. A child whose
-- `load_bpf_file` fails ends by itself; the parent does not learn of it, and it stays among them.
pub record Parent : Type 0 where
  pub child_pid : Option ℕ
  pub unkilled : List ℕ

-- What `fork` returns, in the process that is looked at.
pub data Fork : Type 0 where
  failed : Fork
  in_child : Fork
  in_parent : ℕ → Fork

-- Which process goes on, and how: the parent to its next fetch, the child to the polling loop, or the
-- child to its end because `load_bpf_file` failed.
pub data Next : Type 0 where
  fetching : Parent → Next
  polling : Next
  ended : Next

-- `kill(pid, SIGKILL)`
unfoldable pub kill : ℕ → List ℕ → List ℕ
kill pid [] = []
kill pid (p ∷ ps) = if p == pid then kill pid ps else p ∷ kill pid ps

-- `if (child_pid != -1) kill(child_pid, SIGKILL)`
unfoldable pub kill_old : Parent → List ℕ
kill_old p = elim (p.child_pid) [ none ↦ p.unkilled | some old ↦ kill old p.unkilled ]

-- The `switch` of `main` on the type of the message, up to the loops that follow. `loaded` says
-- whether `load_bpf_file` succeeds.
unfoldable pub handle_message : Parent → ℕ → Fork → Bool → Next
unfolding kill_old
handle_message p type fork loaded =
    if type == program_injection
    then elim fork [
      | failed ↦ fetching (record p { child_pid = none })
      | in_child ↦ if loaded then polling else ended
      | in_parent pid ↦ fetching (record { child_pid = some pid; unkilled = pid ∷ kill_old p })
    ]
    else fetching p
