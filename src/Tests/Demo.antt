-- ===== src/Tests/Demo.antt =====
-- The cache line program.
use huc.Base.{◌≡◌, true, some, arith}
use huc.Cover.Roll.{roll, roll_returns}

roll_returns_example : roll 5000 ≡ some true
roll_returns_example = roll_returns 5000 (omega arith)
