-- ===== src/Spscq/Slots/Laws.antt =====
-- Whatever the shuffles do, the map uses every slot of the queue once.
use mathlib.Core.Logic.Or
use mathlib.Core.Logic.{∥∥₁_elim}
use mathlib.Core.Path.{subst}
use mathlib.Core.List.{
  Mem, Perm, Permᴰ, Nodup, mem-cons, not-mem-nil, Nodup-nil, Nodup-cons, mem-cons_self,
  mem-cons_of_mem, Perm-prop, perm_append_comm,
}
use mathlib.Core.List.Perm
use native.Mathlib.Bridge.{le_prop}
use huc.Base.{
  ℕ, zero, suc, ◌+◌, ◌*◌, ◌/◌, ◌%◌, ◌≤◌, ◌<◌, ◌≡◌, refl, ap, ap₂, ◌∙◌, sym, Bool, true, false, List,
  [], ◌∷◌, ◌++◌, drop, length, length-Perm, get_or, arith, append_assoc, append-nil,
}
use huc.Spscq.Invariant.{Injective}
use huc.Spscq.Slots.{
  slots_from, line_slots, line_starts, Shuffle, fill_lines, qslotmap_init, smap_of,
}

-- A shuffle keeps the elements, each as often as it was there.
pub record Shuffles (shuffle : Shuffle) : Type 0 where
  pub keeps : (j : ℕ) (xs : List ℕ) → Perm (shuffle j xs) xs

-- The numbers `i` to `i + n - 1`.
abbrev upto : ℕ → ℕ → List ℕ
upto i zero = []
upto i (suc n) = i ∷ upto (i + 1) n

upto-append : (i n k : ℕ) → upto i (n + k) ≡ upto i n ++ upto (i + n) k
upto-append i zero k = ap (upto i) {y = k} (omega arith) ∙ ap (λ j. upto j k) {x = i} (omega arith)
upto-append i (suc n) k =
    ap (upto i) {y = suc (n + k)} (omega arith)
    ∙ ap (λ t. i ∷ t) (upto-append (i + 1) n k ∙ ap (λ j. upto (i + 1) n ++ upto j k) (omega arith))

length-upto : (i n : ℕ) → length (upto i n) ≡ n
length-upto i zero = refl
length-upto i (suc n) = omega (arith, length-upto (i + 1) n)

-- Without truncation the slots are the numbers.
slots_from-upto : (i n : ℕ) → i + n ≤ 65536 → slots_from i n ≡ upto i n
unfolding slots_from
slots_from-upto i zero h = refl
slots_from-upto i (suc n) h =
    ap₂ (λ x xs. x ∷ xs) (omega arith) (slots_from-upto (i + 1) n (omega arith))

Mem-upto : (x i n : ℕ) → Mem x (upto i n) → (i ≤ x) × (x + 1 ≤ i + n)
Mem-upto x i n m = (low i n m, high i n m)
  where
    low : (i n : ℕ) → Mem x (upto i n) → i ≤ x
    low i zero m = absurd (not-mem-nil m)
    low i (suc n) m =
        Or.elim le_prop (mem-cons.0 m) (λ e. omega arith) (λ m'. omega (arith, low (i + 1) n m'))

    high : (i n : ℕ) → Mem x (upto i n) → x + 1 ≤ i + n
    high i zero m = absurd (not-mem-nil m)
    high i (suc n) m =
        Or.elim le_prop (mem-cons.0 m) (λ e. omega arith) (λ m'. omega (arith, high (i + 1) n m'))

upto-Nodup : (i n : ℕ) → Nodup (upto i n)
upto-Nodup i zero = Nodup-nil
upto-Nodup i (suc n) =
    Nodup-cons.1 (λ m. absurd (omega (arith, Mem-upto i (i + 1) n m)), upto-Nodup (i + 1) n)

-- The slots of the cache lines that start at the values of a list.
abbrev flat : List ℕ → List ℕ
flat [] = []
flat (x ∷ xs) = slots_from x line_slots ++ flat xs

swap_lines : (xs ys l : List ℕ) → Perm (xs ++ (ys ++ l)) (ys ++ (xs ++ l))
swap_lines xs ys l =
    subst (λ t. Perm t (ys ++ (xs ++ l))) (append_assoc xs ys l)
      (subst (λ t. Perm ((xs ++ ys) ++ l) t) (append_assoc ys xs l)
        (Perm.append_right l (perm_append_comm xs ys)))

flat-Permᴰ : {xs ys : List ℕ} → Permᴰ xs ys → Perm (flat xs) (flat ys)
flat-Permᴰ Permᴰ.nil = Perm.refl []
flat-Permᴰ (Permᴰ.cons {a} {b} {l₁} {l₂} e p) =
    Perm.append
      (subst (λ y. Perm (slots_from a line_slots) (slots_from y line_slots)) e (Perm.refl _))
      (flat-Permᴰ p)
flat-Permᴰ (Permᴰ.swap {a} {b} {a'} {b'} {l} e e') =
    subst (λ y. Perm (flat (a ∷ b ∷ l)) (flat (y ∷ b' ∷ l))) e'
      (subst (λ y. Perm (flat (a ∷ b ∷ l)) (flat (b ∷ y ∷ l))) e
        (swap_lines (slots_from a line_slots) (slots_from b line_slots) (flat l)))
flat-Permᴰ (Permᴰ.trans p q) = Perm.trans (flat-Permᴰ p) (flat-Permᴰ q)

flat-Perm : {xs ys : List ℕ} → Perm xs ys → Perm (flat xs) (flat ys)
flat-Perm p = ∥∥₁_elim p Perm-prop flat-Permᴰ

fill_lines-Perm :
    {shuffle : Shuffle} (s : Shuffles shuffle) (j : ℕ) (v : List ℕ)
    → Perm (fill_lines shuffle j v) (flat v)
unfolding fill_lines
fill_lines-Perm s j [] = Perm.refl []
fill_lines-Perm s j (x ∷ v) = Perm.append (s.keeps j _) (fill_lines-Perm s (j + 1) v)

-- The lines in order hold the slots in order.
flat-line_starts :
    (i n : ℕ)
    → line_slots * (i + n) ≤ 65536
    → flat (line_starts i n) ≡ upto (line_slots * i) (n * line_slots)
unfolding line_starts
flat-line_starts i zero h = refl
flat-line_starts i (suc n) h =
    ap₂ (λ xs ys. xs ++ ys)
      (ap (λ x. slots_from x line_slots) {y = line_slots * i} (omega arith)
        ∙ slots_from-upto (line_slots * i) line_slots (omega arith))
      (flat-line_starts (i + 1) n (omega arith)
        ∙ ap (λ a. upto a (n * line_slots)) {y = line_slots * i + line_slots} (omega arith))
    ∙ sym (upto-append (line_slots * i) line_slots (n * line_slots))
    ∙ ap (upto (line_slots * i)) (omega arith)

drop_all : (n : ℕ) (xs : List ℕ) → length xs ≤ n → drop n xs ≡ []
drop_all zero [] h = refl
drop_all zero (x ∷ xs) h = absurd (omega arith)
drop_all (suc n) [] h = refl
drop_all (suc n) (x ∷ xs) h = drop_all n xs (omega arith)

-- An array of `qlen` entries that is filled without shuffling, or in whole cache lines, holds the
-- slots of the queue in some order.
qslotmap_init-Perm :
    {shuffle : Shuffle} (s : Shuffles shuffle) (qlen : ℕ) (shuffled : Bool) (before : List ℕ)
    → qlen ≤ 65536
    → length before ≡ qlen
    → ((shuffled ≡ true) → qlen % line_slots ≡ 0)
    → Perm (qslotmap_init shuffle qlen shuffled before) (upto 0 qlen)
unfolding qslotmap_init
qslotmap_init-Perm s qlen false before le e whole =
    subst (λ t. Perm t (upto 0 qlen))
      (ap₂ (λ xs ys. xs ++ ys) (sym (slots_from-upto 0 qlen (omega arith)))
        (sym (drop_all qlen before (omega (arith, e)))))
      (subst (λ t. Perm t (upto 0 qlen)) (sym (append-nil (upto 0 qlen))) (Perm.refl _))
qslotmap_init-Perm {shuffle} s qlen true before le e whole =
    let lines : ℕ = qlen / line_slots in
    let all : lines * line_slots ≡ qlen = omega (arith, whole refl) in
    let filled : Perm (fill_lines shuffle 1 (shuffle 0 (line_starts 0 lines))) (upto 0 qlen) =
      Perm.trans (fill_lines-Perm s 1 _) (
        Perm.trans (flat-Perm (s.keeps 0 _)) (
          subst (λ t. Perm (flat (line_starts 0 lines)) t)
            (flat-line_starts 0 lines (omega arith) ∙ ap (upto 0) all) (Perm.refl _))) in
    subst (λ t. Perm t (upto 0 qlen))
      (sym (
        ap (λ ys. fill_lines shuffle 1 (shuffle 0 (line_starts 0 lines)) ++ ys)
          (drop_all (lines * line_slots) before (omega (arith, e, all)))
        ∙ append-nil _))
      filled

get_or-Mem : (xs : List ℕ) (i : ℕ) → i < length xs → Mem (get_or xs i 0) xs
get_or-Mem [] i lt = absurd (omega arith)
get_or-Mem (x ∷ xs) zero lt = mem-cons_self
get_or-Mem (x ∷ xs) (suc i) lt = mem-cons_of_mem x (get_or-Mem xs i (omega arith))

Nodup-get_or :
    (xs : List ℕ) (i j : ℕ)
    → Nodup xs
    → i < length xs
    → j < length xs
    → get_or xs i 0 ≡ get_or xs j 0
    → i ≡ j
Nodup-get_or [] i j nd hi hj e = absurd (omega arith)
Nodup-get_or (x ∷ xs) zero zero nd hi hj e = refl
Nodup-get_or (x ∷ xs) zero (suc j) nd hi hj e =
    absurd ((Nodup-cons.0 nd).0 (subst (λ y. Mem y xs) (sym e) (get_or-Mem xs j (omega arith))))
Nodup-get_or (x ∷ xs) (suc i) zero nd hi hj e =
    absurd ((Nodup-cons.0 nd).0 (subst (λ y. Mem y xs) e (get_or-Mem xs i (omega arith))))
Nodup-get_or (x ∷ xs) (suc i) (suc j) nd hi hj e =
    ap suc (Nodup-get_or xs i j (Nodup-cons.0 nd).1 (omega arith) (omega arith) e)

-- For a queue of at most 65536 slots, a multiple of 8 if they are shuffled, and whatever order the
-- shuffles give: the map sends each index of the queue to a slot of the queue, and different indices
-- to different slots.
pub qslotmap_init-Injective :
    {shuffle : Shuffle} (s : Shuffles shuffle) (qlen : ℕ) (shuffled : Bool) (before : List ℕ)
    → qlen ≤ 65536
    → length before ≡ qlen
    → ((shuffled ≡ true) → qlen % line_slots ≡ 0)
    → ((i : ℕ) → i < qlen → smap_of (qslotmap_init shuffle qlen shuffled before) i < qlen)
      × Injective qlen (smap_of (qslotmap_init shuffle qlen shuffled before))
qslotmap_init-Injective s qlen shuffled before le e whole =
    let p = qslotmap_init-Perm s qlen shuffled before le e whole in
    let size = length-Perm p in
    (
      λ i lt. omega (
        arith,
        Mem-upto _ 0 qlen
            ((Perm.mem_iff p).0 (get_or-Mem _ i (omega (arith, size, length-upto 0 qlen)))),
      ),
      λ i j hi hj.
          Nodup-get_or _ i j ((Perm.Nodup-iff p).1 (upto-Nodup 0 qlen))
            (omega (arith, size, length-upto 0 qlen)) (omega (arith, size, length-upto 0 qlen)),
    )
