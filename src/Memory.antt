-- ===== src/Memory.antt =====
-- Byte memory, and 32-bit little-endian words in it, as an x86 host and guest see a buffer.
pub mod Laws
use huc.Base.{ℕ, zero, suc, ◌+◌, ◌*◌, ◌/◌, ◌%◌, List, [], ◌∷◌, ◌==◌, if◌then◌else◌}

-- The byte at each offset.
abbrev pub Memory : Type 0
Memory = ℕ → ℕ

abbrev pub poke : Memory → ℕ → ℕ → Memory
poke m a v x = if a == x then v else m x

-- `memcpy(m + a, bs, length bs)`, and what `recv` does to its buffer.
unfoldable pub store_bytes : Memory → ℕ → List ℕ → Memory
store_bytes m a [] = m
store_bytes m a (b ∷ bs) = store_bytes (poke m a b) (a + 1) bs

-- The `n` bytes from `a` on.
unfoldable pub load_bytes : Memory → ℕ → ℕ → List ℕ
load_bytes m a zero = []
load_bytes m a (suc n) = m a ∷ load_bytes m (a + 1) n

abbrev pub word_bytes : ℕ → List ℕ
word_bytes v = (v % 256) ∷ (v / 256 % 256) ∷ (v / 65536 % 256) ∷ (v / 16777216 % 256) ∷ []

-- `*(uint32_t *)(m + a)` read and written.
unfoldable pub load32 : Memory → ℕ → ℕ
load32 m a = m a + 256 * m (a + 1) + 65536 * m (a + 2) + 16777216 * m (a + 3)

unfoldable pub store32 : Memory → ℕ → ℕ → Memory
unfolding store_bytes
store32 m a v = store_bytes m a (word_bytes v)
