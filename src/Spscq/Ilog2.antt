-- ===== src/Spscq/Ilog2.antt =====
-- `ilog2` of guestend/simplified-spscq/spscq.cpp.
use native.Mathlib.Nat.{pow-suc, one-le-pow}
use mathlib.Core.Path.{subst}
use huc.Base.{
  ℕ, zero, suc, ◌+◌, ◌*◌, ◌^◌, ◌≤◌, ◌<◌, ◌≡◌, ◌≢◌, ◌⊎◌, inl, inr, ap, ◌∙◌, sym, Option, none, some,
  true, false, ◌==◌, if◌then◌else◌, ltb, u32, arith, bit, bit_and, bit_and_comm, bit_and-pow,
  bit-le-one, bit_of_lt, lt_of_bit, pow-mod_pow, ℕ_discrete, dec_lt,
}

-- `for (c = 0; probe != 0; probe <<= 1, c++) if (x & probe) ret = c;`, with fuel.
unfoldable pub ilog2_from : ℕ → ℕ → ℕ → ℕ → ℕ → Option ℕ
ilog2_from zero x probe c ret = none
ilog2_from (suc fuel) x probe c ret = elim (probe == 0) [
  | true ↦ some ret
  | false ↦ ilog2_from fuel x (u32 (probe * 2)) (c + 1) (if bit_and x probe == 0 then ret else c)
]

-- `ilog2(x)`; `none` is the failed `assert(x != 0)`, or fuel that ran out.
unfoldable pub ilog2 : ℕ → ℕ → Option ℕ
ilog2 fuel x = if x == 0 then none else ilog2_from fuel x 1 0 0

-- `probe` in round `c`
abbrev probe_at : ℕ → ℕ
probe_at c = if ltb c 32 then 2 ^ c else 0

-- Of the digits below `c`, `ret` is the highest that is set, or none is.
abbrev Seen : ℕ → ℕ → ℕ → Type 0
Seen x c ret =
    ((bit x ret ≡ 1) × ((j : ℕ) → ret < j → j < c → bit x j ≡ 0)) ⊎ ((j : ℕ) → j < c → bit x j ≡ 0)

probe_next : (c : ℕ) → c < 32 → u32 (probe_at c * 2) ≡ probe_at (c + 1)
probe_next c lt = ap u32 (ground (arith, pow-suc 2 c)) ∙ pow-mod_pow (suc c) 32 ∙ ground arith

-- `x & probe` is zero exactly if the digit is.
test_digit : (x c : ℕ) → c < 32 → (bit_and x (probe_at c) == 0) ≡ (bit x c == 0)
test_digit x c lt =
    ap (λ p. bit_and x p == 0) (ground arith)
    ∙ ap (λ t. t == 0) (bit_and_comm x (2 ^ c) ∙ bit_and-pow c x)
    ∙ elim (ℕ_discrete (bit x c) 0) [
      | yes z ↦ ap (λ b. b * 2 ^ c == 0) z ∙ ground arith
      | no set ↦
          let one : bit x c ≡ 1 = omega (arith, bit-le-one x c, set) in
          ap (λ b. b * 2 ^ c == 0) one ∙ ground (arith, one-le-pow c 2 (omega arith))
    ]

-- What the digits below `c` and the one at `c` say together.
digits_below :
    (x c ret : ℕ)
    → bit x c ≡ 0
    → ((j : ℕ) → ret < j → j < c → bit x j ≡ 0)
    → (j : ℕ) → ret < j
    → j < c + 1
    → bit x j ≡ 0
digits_below x c ret z above j lo hi = elim (ℕ_discrete j c) [
  | yes e ↦ ap (bit x) e ∙ z
  | no ne ↦ above j lo (omega arith)
]

Seen-next :
    (x c ret : ℕ)
    → c < 32
    → Seen x c ret
    → Seen x (c + 1) (if bit_and x (probe_at c) == 0 then ret else c)
Seen-next x c ret lt seen =
    subst (λ t. Seen x (c + 1) (if t then ret else c)) (sym (test_digit x c lt))
      (elim (ℕ_discrete (bit x c) 0) [
        | yes z ↦
            subst (λ b. Seen x (c + 1) (if b == 0 then ret else c)) (sym z)
              (elim seen [
                | inl (set, above) ↦ inl (set, digits_below x c ret z above)
                | inr empty ↦ inr (λ j hi. elim (ℕ_discrete j c) [
                  | yes e ↦ ap (bit x) e ∙ z
                  | no ne ↦ empty j (omega arith)
                ])
              ])
        | no set ↦
            let one : bit x c ≡ 1 = omega (arith, bit-le-one x c, set) in
            subst (λ b. Seen x (c + 1) (if b == 0 then ret else c)) (sym one)
              (inl (one, λ j lo hi. absurd (omega arith)))
      ])

ilog2_from-Seen :
    (n x c ret fuel : ℕ)
    → c + n ≡ 32
    → n < fuel
    → Seen x c ret
    → (k : ℕ) × (ilog2_from fuel x (probe_at c) c ret ≡ some k) × Seen x 32 k
unfolding ilog2_from
ilog2_from-Seen n x c ret zero e enough seen = absurd (omega arith)
ilog2_from-Seen zero x c ret (suc fuel) e enough seen =
    (ret, ground arith, subst (λ d. Seen x d ret) (omega arith) seen)
ilog2_from-Seen (suc n) x c ret (suc fuel) e enough seen =
    let lt : c < 32 = omega arith in
    let ret' : ℕ = if bit_and x (probe_at c) == 0 then ret else c in
    let (k, run, all) =
      ilog2_from-Seen n x (c + 1) ret' fuel (omega arith) (omega arith)
        (Seen-next x c ret lt seen) in
    let busy : (probe_at c == 0) ≡ false = ground (arith, one-le-pow c 2 (omega arith)) in
    (
      k,
      ground (arith, busy) ∙ ap (λ p. ilog2_from fuel x p (c + 1) ret') (probe_next c lt) ∙ run,
      all,
    )

-- For every `unsigned int` but 0 the loop ends, after 33 tests of `probe`, and the result is the
-- logarithm to base 2, rounded down.
ilog2_lem :
    (fuel x : ℕ)
    → x ≢ 0
    → x < 2 ^ 32
    → 32 < fuel
    → (k : ℕ) × (ilog2 fuel x ≡ some k) × (2 ^ k ≤ x) × (x < 2 ^ (k + 1))
unfolding ilog2
ilog2_lem fuel x ne fits enough =
    let (k, run, all) =
      ilog2_from-Seen 32 x 0 0 fuel (omega arith) enough (inr (λ j hi. absurd (omega arith))) in
    elim all [
      | inl (set, above) ↦ (
        k,
        ground (arith, ne, run),
        elim (dec_lt x (2 ^ k)) [
          | yes lt ↦ absurd (omega (arith, bit_of_lt k x k lt (omega arith), set))
          | no ge ↦ omega arith
        ],
        lt_of_bit (k + 1) x (λ j le. elim (dec_lt j 32) [
          | yes lt ↦ above j (omega arith) lt
          | no ge ↦ bit_of_lt 32 x j fits (omega arith)
        ]),
      )
      | inr empty ↦
          let zero_only : x < 2 ^ 0 = lt_of_bit 0 x (λ j le. elim (dec_lt j 32) [
            | yes lt ↦ empty j lt
            | no ge ↦ bit_of_lt 32 x j fits (omega arith)
          ]) in
          absurd (ne (omega (arith, zero_only)))
    ]
