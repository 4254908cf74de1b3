-- ===== src/Daemon/Masks.antt =====
-- The mask helpers of guestend/daemon.c: `isPowerOfTwo`, `findPosition`, `print_cpu_set_mask` and
-- `print_binary_mask`. What a helper prints is the list of its items.
pub mod Find
pub mod Print
use huc.Base.{
  ℕ, zero, suc, ◌+◌, ◌-◌, ◌*◌, ◌^◌, Bool, true, false, not, ◌&&◌, Option, none, some, List, [], ◌∷◌,
  ◌==◌, if◌then◌else◌, ltb, bit_and, u64,
}
use huc.Hucdev.Cpus.{cpu_isset}

-- `isPowerOfTwo(n)`
unfoldable pub is_power_of_two : ℕ → Bool
is_power_of_two n = not (n == 0) && (bit_and n (n - 1) == 0)

-- The result of `findPosition`: -1 or a position.
pub data Position : Type 0 where
  minus_one : Position
  at : ℕ → Position

-- `while (!(i & n)) { i = i << 1; ++pos; }`, with fuel; `none` means that the fuel ran out.
unfoldable pub position_from : ℕ → ℕ → ℕ → ℕ → Option Position
position_from zero i pos n = none
position_from (suc fuel) i pos n = elim (bit_and i n == 0) [
  | true ↦ position_from fuel (u64 (i * 2)) (pos + 1) n
  | false ↦ some (at pos)
]

-- `findPosition(n)`. 64 rounds reach every bit.
unfoldable pub find_position : ℕ → Option Position
find_position n =
    let found = position_from 64 1 0 n in if is_power_of_two n then found else some minus_one

-- The rounds of `print_cpu_set_mask` from `i` on, `k` of them: the CPUs that are printed.
unfoldable pub cpus_from : ℕ → ℕ → ℕ → List ℕ
cpus_from set i zero = []
cpus_from set i (suc k) =
    if cpu_isset i set then i ∷ cpus_from set (i + 1) k else cpus_from set (i + 1) k

-- `print_cpu_set_mask(set)`, over `MAX_CPU` CPUs
unfoldable pub print_cpu_set_mask : ℕ → List ℕ
unfolding cpus_from
print_cpu_set_mask set = cpus_from set 0 64

-- The rounds of `print_binary_mask` from `i` on: a printed digit is `true` for "1".
unfoldable pub digits_from : ℕ → ℕ → ℕ → List Bool
digits_from value i zero = []
digits_from value i (suc k) = not (bit_and value (u64 (2 ^ i)) == 0) ∷ digits_from value (i + 1) k

-- `print_binary_mask(value, len)`
unfoldable pub print_binary_mask : ℕ → ℕ → List Bool
unfolding digits_from
print_binary_mask value len = if ltb 8 len then [] else digits_from value 0 (len * 8)
