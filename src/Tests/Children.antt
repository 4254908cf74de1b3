-- ===== src/Tests/Children.antt =====
-- The daemon's children on concrete messages.
use huc.Base.{some, [], ◌∷◌}
use huc.Daemon.Children.{Parent}

-- A child with the pid 7 runs.
abbrev one_child : Parent
one_child = record { child_pid = some 7; unkilled = 7 ∷ [] }
