-- ===== src/Spscq/Slots.antt =====
-- `qslotmap_init` of guestend/simplified-spscq/spscq.cpp: the order in which the queue's slots are used,
-- which the queue of that program has as its `SMAP`.
pub mod Laws
use huc.Base.{
  ℕ, zero, suc, ◌+◌, ◌*◌, ◌/◌, Bool, true, false, List, [], ◌∷◌, ◌++◌, u16, drop, length, get_or,
}

-- The values `i`, `i + 1`, … as `unsigned short`, `n` of them.
unfoldable pub slots_from : ℕ → ℕ → List ℕ
slots_from i zero = []
slots_from i (suc n) = u16 i ∷ slots_from (i + 1) n

-- `K`, the entries of a cache line: `SPSCQ_CACHELINE_SIZE / sizeof(uintptr_t)`
abbrev pub line_slots : ℕ
line_slots = 8

-- `v[i] = K * i` from `i` on, `n` of them.
unfoldable pub line_starts : ℕ → ℕ → List ℕ
line_starts i zero = []
line_starts i (suc n) = u16 (line_slots * i) ∷ line_starts (i + 1) n

-- `std::shuffle`: the generator's state changes with each call, so that a call has its number.
abbrev pub Shuffle : Type 0
Shuffle = ℕ → List ℕ → List ℕ

-- The loop over the cache lines from the one that call `j` shuffles on.
unfoldable pub fill_lines : Shuffle → ℕ → List ℕ → List ℕ
fill_lines shuffle j [] = []
fill_lines shuffle j (x ∷ v) = shuffle j (slots_from x line_slots) ++ fill_lines shuffle (j + 1) v

-- `qslotmap_init(qslotmap, qlen, shuffle)`. `before` is what the array holds.
unfoldable pub qslotmap_init : Shuffle → ℕ → Bool → List ℕ → List ℕ
unfolding slots_from line_starts fill_lines
qslotmap_init shuffle qlen false before = slots_from 0 qlen ++ drop qlen before
qslotmap_init shuffle qlen true before =
    let lines = qlen / line_slots in
    fill_lines shuffle 1 (shuffle 0 (line_starts 0 lines)) ++ drop (lines * line_slots) before

-- `SMAP(x)`, that is `smap[x]`
abbrev pub smap_of : List ℕ → ℕ → ℕ
smap_of slots x = get_or slots x 0
