-- ===== src/Daemon/Children/Orphans.antt =====
-- The children over any number of messages, forks that fail included.
use huc.Base.{ℕ, ◌+◌, ◌≡◌, true, Option, none, some, List, [], ◌∷◌, ◌==◌, if◌then◌else◌, length}
use huc.Msg.{program_injection}
use huc.Daemon.Children.{
  Parent, Fork, failed, in_parent, Next, fetching, polling, ended, handle_message,
}

-- A message that the parent gets: its type, and what `fork` returns if it comes to that, `none` being -1.
pub record Request : Type 0 where
  pub type : ℕ
  pub forked : Option ℕ

abbrev pub fork_of : Option ℕ → Fork
fork_of none = failed
fork_of (some pid) = in_parent pid

-- The parent goes on; the other ends are those of a child.
abbrev pub parent_of : Parent → Next → Parent
parent_of p (fetching q) = q
parent_of p polling = p
parent_of p ended = p

abbrev pub after : Parent → Request → Parent
after p r = parent_of p (handle_message p r.type (fork_of r.forked) true)

-- The parent after all the messages.
unfoldable pub parent_after : Parent → List Request → Parent
parent_after p [] = p
parent_after p (r ∷ rs) = parent_after (after p r) rs

abbrev pub count : ℕ → List ℕ → ℕ
count pid [] = 0
count pid (p ∷ ps) = (if p == pid then 1 else 0) + count pid ps

-- `fork` never returns the pid of a child that was not killed: the parent never waits for one, so that its
-- pid stays taken.
abbrev pub IsNew : Option ℕ → List ℕ → Type 0
IsNew none unkilled = Unit
IsNew (some pid) unkilled = count pid unkilled ≡ 0

abbrev pub AllNew : Parent → List Request → Type 0
AllNew p [] = Unit
AllNew p (r ∷ rs) = IsNew r.forked p.unkilled × AllNew (after p r) rs

-- 1 if there is a child that the parent remembers.
abbrev pub remembered : Option ℕ → ℕ
remembered none = 0
remembered (some pid) = 1

-- How many children the parent forgets: one with each `fork` that fails while it remembers one.
abbrev pub forgotten : Option ℕ → List Request → ℕ
forgotten c [] = 0
forgotten c (r ∷ rs) =
    if r.type == program_injection
    then elim (r.forked) [
      | none ↦ remembered c + forgotten none rs
      | some pid ↦ forgotten (some pid) rs
    ]
    else forgotten c rs

-- The child that is remembered was not killed, and is there once.
abbrev IsOnce : Option ℕ → List ℕ → Type 0
IsOnce none unkilled = Unit
IsOnce (some pid) unkilled = count pid unkilled ≡ 1

-- Beside the child that is remembered, `k` children were not killed.
pub record Forgot (p : Parent) (k : ℕ) : Type 0 where
  pub size : length p.unkilled ≡ k + remembered p.child_pid
  pub known : IsOnce p.child_pid p.unkilled
