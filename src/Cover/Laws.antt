-- ===== src/Cover/Laws.antt =====
-- The number of lines in closed form.
use huc.Base.{
  ℕ, zero, suc, ◌+◌, ◌-◌, ◌*◌, ◌/◌, ◌≤◌, ◌<◌, ◌≡◌, refl, ap, ◌∙◌, ◌&&◌, some, ltb, arith, dec_lt,
  min,
}
use huc.Cover.{
  line_covered, lines_from, covered_cachelines, predict, cover_offsets, cover_batches, cover,
}

-- A line is covered exactly if it overlaps the batch.
line_covered_lem :
    (first b s n : ℕ)
    → 0 < b
    → line_covered first b s n ≡ (ltb s (first + b) && (ltb first (s + n) && ltb 0 n))
unfolding line_covered
line_covered_lem first b s zero pos = ground arith
line_covered_lem first b s (suc n) pos = ground (arith, line_covered_lem first b (s + 1) n pos)

-- From the line of the first slot on, the covered lines are those up to the line of the last.
lines_from_lem :
    (first b last_line fuel q : ℕ)
    → 0 < b
    → first < 8 * q + 8
    → last_line / 8 + 1 - q < fuel
    → lines_from first b last_line 8 fuel (8 * q)
      ≡ some (min (last_line / 8) ((first + b - 1) / 8) + 1 - q)
unfolding lines_from
lines_from_lem first b last_line zero q pos near enough = absurd (omega arith)
lines_from_lem first b last_line (suc fuel) q pos near enough = elim (dec_lt last_line (8 * q)) [
  | yes past ↦ ground arith
  | no inside ↦
      let rest : lines_from first b last_line 8 fuel (8 * q + 8)
          ≡ some (min (last_line / 8) ((first + b - 1) / 8) + 1 - (q + 1)) =
        ap (lines_from first b last_line 8 fuel) {y = 8 * (q + 1)} (omega arith)
        ∙ lines_from_lem first b last_line fuel (q + 1) pos (omega arith) (omega arith) in
      ground (arith, rest, line_covered_lem first b (8 * q) 8 pos)
]

-- A batch of `b` slots from `first` on, of a queue whose lines of 8 slots start up to `last_line`:
-- `covered_cachelines` ends, and counts the lines from that of the first slot to that of the last, or to
-- the last line of the queue.
pub covered_cachelines_closed :
    (fuel first b last_line : ℕ)
    → 0 < b
    → last_line / 8 + 1 < fuel
    → covered_cachelines fuel first b last_line 8
      ≡ some (min (last_line / 8) ((first + b - 1) / 8) + 1 - first / 8)
unfolding covered_cachelines
covered_cachelines_closed fuel first b last_line pos enough =
    ap (lines_from first b last_line 8 fuel) {y = 8 * (first / 8)} (omega arith)
    ∙ lines_from_lem first b last_line fuel (first / 8) pos (omega arith) (omega arith)

-- The formula that `cover` checks is right: for a batch of 1 to 256 slots it goes through the offsets
-- without an error of more than one line, and never below.
cover_offsets_succeeds :
    (fuel b ofs n : ℕ)
    → 0 < b
    → b ≤ 256
    → ofs + n ≤ 8
    → 33 < fuel
    → (total : ℕ) × (cover_offsets fuel b ofs n ≡ some total) × (total ≤ n)
unfolding cover_offsets
cover_offsets_succeeds fuel b ofs zero pos le in_line enough = (0, refl, omega arith)
cover_offsets_succeeds fuel b ofs (suc n) pos le in_line enough =
    let (total, e, few) = cover_offsets_succeeds fuel b (ofs + 1) n pos le (omega arith) enough in
    let lines : ℕ = min 32 ((ofs + b - 1) / 8) + 1 - ofs / 8 in
    let counted : covered_cachelines fuel ofs b 256 8 ≡ some lines =
      covered_cachelines_closed fuel ofs b 256 pos enough in
    (predict b - lines + total, ground (arith, counted, e), omega arith)

cover_batches_succeeds :
    (fuel b n : ℕ)
    → 0 < b
    → b + n ≤ 257
    → 33 < fuel
    → (total : ℕ) × (cover_batches fuel b n ≡ some total) × (total ≤ n * 8)
unfolding cover_batches
cover_batches_succeeds fuel b zero pos le enough = (0, refl, omega arith)
cover_batches_succeeds fuel b (suc n) pos le enough =
    let (errors, e, few) =
      cover_offsets_succeeds fuel b 0 8 pos (omega arith) (omega arith) enough in
    let (rest, e', few') =
      cover_batches_succeeds fuel (b + 1) n (omega arith) (omega arith) enough in
    (errors + rest, ground (arith, e, e'), omega arith)

-- `cover` returns 0: for all batches of 1 to 256 slots, at all eight offsets in a line, the formula is
-- the number of lines or one more.
cover_returns : (fuel : ℕ) → 33 < fuel → (total : ℕ) × (cover fuel ≡ some total) × (total ≤ 2048)
unfolding cover
cover_returns fuel enough = cover_batches_succeeds fuel 1 256 (omega arith) (omega arith) enough
