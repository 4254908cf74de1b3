-- ===== src/Hucdev/Server/Masks.antt =====
-- RESET and PIN_ON_SAME: what they ask the host to do with every vCPU thread.
use huc.Base.{
  ℕ, zero, suc, ◌+◌, ◌≤◌, ◌<◌, ◌≡◌, ◌↔◌, refl, some, List, arith, bit, bit_or, bit-bit_or, bit_ext,
  zero-bit, bit_of_lt, true, bit_or_low, ◌/◌, ◌*◌,
}
use huc.Msg.{reset, pin_on_same}
use huc.Hucdev.{HucState, Effect}
use huc.Hucdev.Cpus.{CpuTable, pin_all, reset_mask, pin_mask, cpu_isset}
use huc.Hucdev.Cpus.Laws.{Vcpus, for_each_cpu-rounds, rounds}
use huc.Hucdev.Mmio.Affinity.{Host, granted, granted_idem, mask_after}
use huc.Hucdev.Server.{dispatch}

-- After a request, further ones for the same mask change nothing.
pin_all_keeps :
    (host : Host) (set t b : ℕ) (thread : ℕ → ℕ) (i k : ℕ)
    → mask_after host t (granted host t set b) (rounds (pin_all set) thread i k)
      ≡ granted host t set b
pin_all_keeps host set t b thread i zero = refl
pin_all_keeps host set t b thread i (suc k) =
    ground (arith, granted_idem host t set b, pin_all_keeps host set t b thread (i + 1) k)

pin_all_covers :
    (host : Host) (set : ℕ) (thread : ℕ → ℕ) (j b i k : ℕ)
    → i ≤ j
    → j < i + k
    → mask_after host (thread j) b (rounds (pin_all set) thread i k) ≡ granted host (thread j) set b
pin_all_covers host set thread j b i zero lo hi = absurd (omega arith)
pin_all_covers host set thread j b i (suc k) lo hi = ground (
  arith,
  granted_idem host (thread j) set b,
  pin_all_keeps host set (thread j) b thread (i + 1) k,
  pin_all_covers host set thread j b (i + 1) k,
  pin_all_covers host set thread j (granted host (thread j) set b) (i + 1) k,
)

bit_or-zero : (a : ℕ) → bit_or a 0 ≡ a
bit_or-zero a = bit_ext _ a (λ i. omega (arith, bit-bit_or a 0 i, zero-bit i))

pin_mask_lem : (junk : ℕ) → pin_mask junk ≡ junk / 2 * 2 + 1
pin_mask_lem junk = omega (arith, bit_or_low junk 1, bit_or-zero (junk / 2))

module _ {get_cpu : CpuTable} {n : ℕ} {thread : ℕ → ℕ} (v : Vcpus get_cpu n thread) (fuel : ℕ)
    (enough : n < fuel) (host : Host) where
  -- RESET returns with the device unchanged, having asked the host for the mask 0xffffffff for every vCPU
  -- thread; no host CPU from 32 on is in it.
  pub dispatch-reset :
      (s : HucState) (junk j before cpu : ℕ)
      → j < n
      → 32 ≤ cpu
      → (out : List Effect) × (dispatch get_cpu fuel s reset junk ≡ some (s, out))
        × (mask_after host (thread j) before out ≡ granted host (thread j) 0xffff_ffff before)
        × (bit 0xffff_ffff cpu ≡ 0)
  unfolding dispatch
  dispatch-reset s junk j before cpu lt ge = (
    rounds (pin_all reset_mask) thread 0 n,
    ground (arith, for_each_cpu-rounds v (pin_all reset_mask) n 0 fuel (omega arith) enough),
    covers,
    bit_of_lt 32 reset_mask cpu (omega arith) ge,
  )
    where
      covers :
          mask_after host (thread j) before (rounds (pin_all reset_mask) thread 0 n)
          ≡ granted host (thread j) 0xffff_ffff before
      covers = pin_all_covers host reset_mask thread j before 0 n (omega arith) (omega arith)

  -- PIN_ON_SAME returns with the device unchanged, having asked for one mask for every vCPU thread, in which
  -- host CPU 0 is set; it is the mask of CPU 0 alone exactly if the uncleared memory of `CPU_ALLOC`
  -- held no other bit.
  pub dispatch-pin_on_same :
      (s : HucState) (junk j before : ℕ)
      → j < n
      → (out : List Effect) × (dispatch get_cpu fuel s pin_on_same junk ≡ some (s, out))
        × (mask_after host (thread j) before out ≡ granted host (thread j) (pin_mask junk) before)
        × (cpu_isset 0 (pin_mask junk) ≡ true)
        × ((pin_mask junk ≡ 1) ↔ (junk ≤ 1))
  unfolding dispatch
  dispatch-pin_on_same s junk j before lt = (
    rounds (pin_all (pin_mask junk)) thread 0 n,
    ground (arith, for_each_cpu-rounds v (pin_all (pin_mask junk)) n 0 fuel (omega arith) enough),
    pin_all_covers host (pin_mask junk) thread j before 0 n (omega arith) (omega arith),
    ground (arith, bit-bit_or junk 1 0),
    (λ e. omega (arith, pin_mask_lem junk), λ e. omega (arith, pin_mask_lem junk)),
  )
