-- ===== src/Spscq/Index.antt =====
-- Indices that go round a power of two.
use huc.Base.{
  ℕ, ◌+◌, ◌-◌, ◌%◌, ◌^◌, ◌≤◌, ◌<◌, ◌≡◌, ◌≢◌, ap, ◌∙◌, arith, bit_and, bit_and-low_mask, u32, dec_lt,
  ◌⊎◌, inl, inr, ◌/◌,
}
use native.Mathlib.Nat.{
  one-le-pow, pow-le-pow_right, mod-lt, mod-add-mod, div-add-mod, mul-le-mul_left,
}

-- `(i + 1) & qmask` of an index below the length is the index of the next number.
pub next_mod : (k n : ℕ) → k ≤ 31 → bit_and (u32 (n % 2 ^ k + 1)) (2 ^ k - 1) ≡ (n + 1) % 2 ^ k
next_mod k n le =
    bit_and-low_mask k (u32 (n % 2 ^ k + 1)) ∙ ap (λ t. t % 2 ^ k) no_wrap ∙ mod-add-mod n (2 ^ k) 1
  where
    bound : 2 ^ k ≤ 2 ^ 31
    bound = pow-le-pow_right {n = 2} (omega arith) le

    no_wrap : u32 (n % 2 ^ k + 1) ≡ n % 2 ^ k + 1
    no_wrap = omega (arith, bound, mod-lt n {m = 2 ^ k} (one-le-pow k 2 (omega arith)))

-- Numbers less than a round apart have different indices.
pub mod_ne : (l a b : ℕ) → a < b → b < a + l → a % l ≢ b % l
mod_ne l a b lt near e = elim (dec_lt (a / l) (b / l)) [
  | yes up ↦ omega (
    arith,
    div-add-mod a l,
    div-add-mod b l,
    mul-le-mul_left {m = a / l + 1} {n = b / l} l (omega arith),
  )
  | no same ↦ omega (
    arith,
    div-add-mod a l,
    div-add-mod b l,
    mul-le-mul_left {m = b / l} {n = a / l} l (omega arith),
  )
]

-- With at most a round between them, two numbers have one index only if they are equal or exactly a
-- round apart.
pub mod_eq : (l a b : ℕ) → a ≤ b → b ≤ a + l → a % l ≡ b % l → (b ≡ a) ⊎ (b ≡ a + l)
mod_eq l a b le near e = elim (dec_lt a b) [
  | yes lt ↦ elim (dec_lt b (a + l)) [
    | yes inside ↦ absurd (mod_ne l a b lt inside e)
    | no outside ↦ inr (omega arith)
  ]
  | no ge ↦ inl (omega arith)
]
