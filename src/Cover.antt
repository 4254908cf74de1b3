-- ===== src/Cover.antt =====
-- `covered_cachelines` and `cover` of guestend/simplified-spscq/cover.cpp: how many cache lines a batch of
-- slots touches, and the check of a formula for it.
pub mod Laws
pub mod Roll
use huc.Base.{
  ℕ, zero, suc, ◌+◌, ◌-◌, ◌*◌, ◌/◌, Bool, true, false, ◌&&◌, Option, none, some, if◌then◌else◌, leb,
  ltb, ◌||◌,
}

-- `for (s = k; s < k + K; s++) if (s >= first && s < first + b) { …; break; }` from `s` on, `n` rounds:
-- whether a slot is covered.
unfoldable pub line_covered : ℕ → ℕ → ℕ → ℕ → Bool
line_covered first b s zero = false
line_covered first b s (suc n) =
    if leb first s && ltb s (first + b) then true else line_covered first b (s + 1) n

-- `for (k = fk; k <= L; k += K)` from `k` on, with fuel: the lines that are added. `none` means that the
-- fuel ran out.
unfoldable pub lines_from : ℕ → ℕ → ℕ → ℕ → ℕ → ℕ → Option ℕ
unfolding line_covered
lines_from first b last_line width zero k = none
lines_from first b last_line width (suc fuel) k = elim (leb k last_line) [
  | false ↦ some 0
  | true ↦ elim (lines_from first b last_line width fuel (k + width)) [
    | none ↦ none
    | some n ↦ some ((if line_covered first b k width then 1 else 0) + n)
  ]
]

-- `covered_cachelines(first, b, L, K)`
unfoldable pub covered_cachelines : ℕ → ℕ → ℕ → ℕ → ℕ → Option ℕ
covered_cachelines fuel first b last_line width =
    lines_from first b last_line width fuel (first / width * width)

-- `ceil((b - 1) / K) + 1`, which the code computes in floating point, for positive `b` and `K = 8`
abbrev pub predict : ℕ → ℕ
predict b = (b - 1 + 7) / 8 + 1

-- The loop of `cover` over the offsets from `ofs` on, `n` of them: the sum of the errors. `none` is the
-- result -1.
unfoldable pub cover_offsets : ℕ → ℕ → ℕ → ℕ → Option ℕ
cover_offsets fuel b ofs zero = some 0
cover_offsets fuel b ofs (suc n) = elim (covered_cachelines fuel ofs b 256 8) [
  | none ↦ none
  | some lines ↦
      if ltb (predict b) lines || ltb (lines + 1) (predict b)
      then none
      else elim (cover_offsets fuel b (ofs + 1) n) [
        | none ↦ none
        | some total ↦ some (predict b - lines + total)
      ]
]

-- The loop of `cover` over the sizes of a batch from `b` on, `n` of them.
unfoldable pub cover_batches : ℕ → ℕ → ℕ → Option ℕ
unfolding cover_offsets
cover_batches fuel b zero = some 0
cover_batches fuel b (suc n) = elim (cover_offsets fuel b 0 8) [
  | none ↦ none
  | some errors ↦ elim (cover_batches fuel (b + 1) n) [
    | none ↦ none
    | some rest ↦ some (errors + rest)
  ]
]

-- `cover()`: the sum that it prints if it returns 0, `none` if it returns -1.
unfoldable pub cover : ℕ → Option ℕ
cover fuel = cover_batches fuel 1 256
