-- ===== src/Tests/Clock.antt =====
-- A counter of 1,000,000,000 ticks per second, measured over three rounds of 20 milliseconds.
use huc.Base.{ℕ, ◌+◌, ◌*◌, ◌/◌, ◌≡◌, ◌≤◌, ◌<◌, arith}
use huc.Mlib.Tsc.{Sample, Sound, Quotient, ticks, rate, spread, elapsed, tsc_init, tsc_init-rate}

-- The gap around the first time grows from round to round.
abbrev measured : ℕ → Sample
measured i = record {
  ta_0 = 1000;
  a_sec = 7;
  a_usec = 990_000;
  ta_1 = 1200 + i;
  tb_0 = 20_001_200;
  b_sec = 8;
  b_usec = 10_000;
  tb_1 = 20_001_300;
}

measured-Sound : (i : ℕ) → i < 3 → Sound 1_000_000_000 (measured i)
measured-Sound i lt = record {
  read_a = 1100;
  read_b = 20_001_250;
  a_after = omega arith;
  a_before = omega arith;
  sleeps = omega arith;
  b_after = omega arith;
  b_before = omega arith;
  fits = omega arith;
  moves = omega arith;
  not_slow = omega arith;
  not_fast = omega arith;
}

-- The quotient without rounding errors.
abbrev exact : Quotient
exact x y = x * 1_000_000 / y

tsc_init-rate_example :
    (j : ℕ) × (j < 3)
    × ((k : ℕ) → k < 3 → spread (measured j) ≤ spread (measured k))
    × (tsc_init exact measured ≡ rate exact (measured j))
    × (ticks (measured j) * 1_000_000 ≤ 1_000_000_000 * elapsed (measured j) + 1_000_000_000)
    × (1_000_000_000 * elapsed (measured j)
        ≤ ticks (measured j) * 1_000_000 + 1_000_000_000 + spread (measured j) * 1_000_000)
tsc_init-rate_example = tsc_init-rate exact measured 1_000_000_000 measured-Sound
