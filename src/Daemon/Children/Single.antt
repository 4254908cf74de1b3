-- ===== src/Daemon/Children/Single.antt =====
-- One program at a time: a new child replaces the one before, unless a `fork` has failed between.
use huc.Base.{
  ℕ, ◌≡◌, refl, ap, ◌∙◌, Bool, Option, none, some, List, [], ◌∷◌, arith, ◌==◌, if◌then◌else◌,
  ℕ_discrete,
}
use huc.Msg.{program_injection}
use huc.Daemon.Children.{Parent, failed, in_parent, fetching, kill, kill_old, handle_message}

-- The child that the parent remembers is the only one that it has not killed.
abbrev pub IsSingle : Parent → Type 0
IsSingle p = elim (p.child_pid) [ none ↦ p.unkilled ≡ [] | some pid ↦ p.unkilled ≡ pid ∷ [] ]

kill_only : (pid : ℕ) → kill pid (pid ∷ []) ≡ []
unfolding kill
kill_only pid = ground arith

pub kill_old-IsSingle :
    (c : Option ℕ) (a : List ℕ)
    → IsSingle (record { child_pid = c; unkilled = a })
    → kill_old (record { child_pid = c; unkilled = a }) ≡ []
unfolding kill_old
kill_old-IsSingle none a h = h
kill_old-IsSingle (some pid) a h = ap (kill pid) h ∙ kill_only pid

-- As long as `fork` succeeds, handling a message of any type keeps the parent with no other child
-- than the one it remembers; a PROGRAM_INJECTION makes that the new child.
handle_message-IsSingle :
    (p : Parent) (type pid : ℕ) (loaded : Bool)
    → IsSingle p
    → (q : Parent) × (handle_message p type (in_parent pid) loaded ≡ fetching q)
      × IsSingle q
      × (q.child_pid ≡ (if type == program_injection then some pid else p.child_pid))
unfolding handle_message
handle_message-IsSingle p type pid loaded h = elim (ℕ_discrete type 1) [
  | yes inject ↦ (
    record { child_pid = some pid; unkilled = pid ∷ kill_old p },
    ground arith,
    ap (λ t. pid ∷ t) (kill_old-IsSingle p.child_pid p.unkilled h),
    ground arith,
  )
  | no other ↦ (p, ground arith, h, ground arith)
]

-- After a failed `fork` the parent has forgotten a child that still runs: the next injection leaves
-- two programs loaded.
handle_message_after_failed_fork :
    (old pid : ℕ) (loaded : Bool)
    → (p q : Parent) × (handle_message
          (record { child_pid = some old; unkilled = old ∷ [] })
          program_injection
          failed
          loaded
        ≡ fetching p)
      × (handle_message p program_injection (in_parent pid) loaded ≡ fetching q)
      × (q.unkilled ≡ pid ∷ old ∷ [])
unfolding handle_message
handle_message_after_failed_fork old pid loaded = (
  record { child_pid = none; unkilled = old ∷ [] },
  record { child_pid = some pid; unkilled = pid ∷ old ∷ [] },
  refl,
  refl,
  refl,
)
