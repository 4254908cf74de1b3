-- ===== src/Spscq/Bench/Memory.antt =====
-- The memory of the benchmark's queue: `blq_create` and `blq_free`.
use native.Mathlib.Nat.{pow-le-pow_right, one-le-pow, pow-suc, mod-lt}
use huc.Base.{
  ℕ, suc, ◌+◌, ◌-◌, ◌*◌, ◌%◌, ap, ◌∙◌, u32, bit_and, bit_and-low_mask, ◌^◌, ◌≤◌, ◌<◌, ◌≡◌, refl,
  some, inl, inr, arith,
}
use huc.Spscq.{Blq, blq_size}
use huc.Spscq.Init.{init_lem, blq_size_lem, aligned_size_lem}
use huc.Spscq.Steps.{start}
use huc.Spscq.Bench.{
  zeroed, blq_create, blq_free, pool_size, pool_and_smap_size, pool_mask_of, mbuf_at, mbuf_size,
}

-- For 2 to 2^31 slots, a power of two, `blq_create` returns the queue on which the threads start.
pub blq_create-start : (k : ℕ) → 1 ≤ k → blq_create (2 ^ k) ≡ some (start (2 ^ k)).queue
unfolding blq_create
blq_create-start k le = elim (init_lem zeroed (2 ^ k)) [
  | inl (j, lt, e, made) ↦ made
  | inr (no_power, failed) ↦ absurd (no_power (k, le, refl))
]

-- From a mapping in huge pages, `blq_free` asks to unmap less than `blq_create` has mapped, whatever the
-- length of the queue.
blq_free-blq_size : (q : Blq) → 0 < q.qlen → q.qlen ≤ 2 ^ 31 → blq_free q < blq_size q.qlen
unfolding blq_free
blq_free-blq_size q pos le =
    let (_, _, short) = blq_size_lem 0 (omega arith) in
    let (whole, holds, _) = blq_size_lem q.qlen le in omega (arith, short, holds, whole)

-- For a queue of `2 ^ k` slots, `k` at most 30: the mask is that of a pool of `2 ^ (k + 1)` packets,
-- each packet that `mbuf_get` can hand out lies in the part of the allocation in front of `smap`, and
-- each entry of `smap` lies in the part behind it.
pub pool-smap :
    (k pool i x : ℕ)
    → k ≤ 30
    → x < 2 ^ k
    → (pool_mask_of (2 ^ k) ≡ 2 ^ suc k - 1)
      × (mbuf_at pool (pool_mask_of (2 ^ k)) i + mbuf_size ≤ pool + pool_size (2 ^ k))
      × (pool_size (2 ^ k) + 2 * x + 2 ≤ pool_and_smap_size (2 ^ k))
unfolding pool_size pool_and_smap_size pool_mask_of
pool-smap k pool i x le lt =
    let bound : 2 ^ k ≤ 2 ^ 30 = pow-le-pow_right (omega arith) le in
    let mask : pool_mask_of (2 ^ k) ≡ 2 ^ suc k - 1 =
      omega (arith, bound, pow-suc 2 k, one-le-pow k 2 (omega arith)) in
    let (_, holds, _) = aligned_size_lem (u32 (2 * 2 ^ k) * mbuf_size) (omega arith) in
    let index : bit_and i (pool_mask_of (2 ^ k)) ≡ i % 2 ^ suc k =
      ap (bit_and i) mask ∙ bit_and-low_mask (suc k) i in
    let below : i % 2 ^ suc k < 2 ^ suc k = mod-lt i (one-le-pow (suc k) 2 (omega arith)) in
    (mask, omega (arith, bound, holds, index, below, pow-suc 2 k), omega arith)
