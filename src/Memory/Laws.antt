-- ===== src/Memory/Laws.antt =====
-- Loads after stores.
use huc.Base.{
  ℕ, zero, suc, ◌+◌, ◌-◌, ◌%◌, ◌^◌, ◌≤◌, ◌<◌, ◌≡◌, refl, sym, ap, ap₂, ◌∙◌, ◌⊎◌, inl, inr, List, [],
  ◌∷◌, ◌++◌, arith, length, get_or, get_or_ext, take,
}
use native.Mathlib.Nat.{suc-add}
use huc.Memory.{Memory, poke, store_bytes, load_bytes, word_bytes, load32, store32}

-- A store leaves every byte outside its range alone.
pub store_bytes_outside :
    (m : Memory) (a : ℕ) (bs : List ℕ) (x : ℕ)
    → (x < a) ⊎ (a + length bs ≤ x)
    → store_bytes m a bs x ≡ m x
unfolding store_bytes
store_bytes_outside m a [] x h = refl
store_bytes_outside m a (b ∷ bs) x h = ground (arith, store_bytes_outside (poke m a b) (a + 1) bs x)

-- Inside its range a store puts the bytes in order.
store_bytes_inside :
    (m : Memory) (a : ℕ) (bs : List ℕ) (i : ℕ)
    → i < length bs
    → store_bytes m a bs (a + i) ≡ get_or bs i 0
unfolding store_bytes
store_bytes_inside m a [] i h = absurd (omega arith)
store_bytes_inside m a (b ∷ bs) zero h =
    store_bytes_outside (poke m a b) (a + 1) bs (a + 0) (inl (omega arith)) ∙ ground arith
store_bytes_inside m a (b ∷ bs) (suc i) h =
    ap (store_bytes (poke m a b) (a + 1) bs) (omega arith)
    ∙ store_bytes_inside (poke m a b) (a + 1) bs i (omega arith)

pub length-load_bytes : (m : Memory) (a n : ℕ) → length (load_bytes m a n) ≡ n
unfolding load_bytes
length-load_bytes m a zero = refl
length-load_bytes m a (suc n) = ap suc (length-load_bytes m (a + 1) n)

get_or-load_bytes : (m : Memory) (a n i : ℕ) → i < n → get_or (load_bytes m a n) i 0 ≡ m (a + i)
unfolding load_bytes
get_or-load_bytes m a zero i h = absurd (omega arith)
get_or-load_bytes m a (suc n) zero h = ap m (omega arith)
get_or-load_bytes m a (suc n) (suc i) h =
    get_or-load_bytes m (a + 1) n i (omega arith) ∙ ap m (omega arith)

-- Two memories that agree on a range give the same bytes.
pub load_bytes_congr :
    (m m' : Memory) (a n : ℕ)
    → ((i : ℕ) → i < n → m (a + i) ≡ m' (a + i))
    → load_bytes m a n ≡ load_bytes m' a n
load_bytes_congr m m' a n h =
    get_or_ext 0 _ _ (length-load_bytes m a n ∙ sym (length-load_bytes m' a n))
      (λ i lt. same i (omega (arith, length-load_bytes m a n)))
  where
    same : (i : ℕ) → i < n → get_or (load_bytes m a n) i 0 ≡ get_or (load_bytes m' a n) i 0
    same i lt = get_or-load_bytes m a n i lt ∙ h i lt ∙ sym (get_or-load_bytes m' a n i lt)

-- What was stored is loaded.
pub load_bytes-store_bytes :
    (m : Memory) (a : ℕ) (bs : List ℕ) → load_bytes (store_bytes m a bs) a (length bs) ≡ bs
load_bytes-store_bytes m a bs =
    get_or_ext 0 _ _ (length-load_bytes _ a (length bs))
      (λ i lt. same i (omega (arith, length-load_bytes (store_bytes m a bs) a (length bs))))
  where
    same :
        (i : ℕ)
        → i < length bs
        → get_or (load_bytes (store_bytes m a bs) a (length bs)) i 0 ≡ get_or bs i 0
    same i lt =
        get_or-load_bytes (store_bytes m a bs) a (length bs) i lt ∙ store_bytes_inside m a bs i lt

pub load_bytes-append :
    (m : Memory) (a n k : ℕ) → load_bytes m a (n + k) ≡ load_bytes m a n ++ load_bytes m (a + n) k
unfolding load_bytes
load_bytes-append m a zero k = ap₂ (load_bytes m) {x = a} {y = a + 0} (omega arith) (omega arith)
load_bytes-append m a (suc n) k =
    ap (load_bytes m a) (suc-add n k)
    ∙ ap (λ t. m a ∷ t)
        (load_bytes-append m (a + 1) n k
          ∙ ap (λ x. load_bytes m (a + 1) n ++ load_bytes m x k) (omega arith))

-- A 32-bit word comes back as it was stored, cut to its width.
pub load32-store32 : (m : Memory) (a v : ℕ) → load32 (store32 m a v) a ≡ v % 2 ^ 32
unfolding load32 store32
load32-store32 m a v = ground arith

store32_outside : (m : Memory) (a v x : ℕ) → (x < a) ⊎ (a + 4 ≤ x) → store32 m a v x ≡ m x
unfolding store32
store32_outside m a v x h = store_bytes_outside m a (word_bytes v) x h

pub load32-store32_outside :
    (m : Memory) (a v x : ℕ) → (x + 4 ≤ a) ⊎ (a + 4 ≤ x) → load32 (store32 m a v) x ≡ load32 m x
unfolding load32 store32
load32-store32_outside m a v x h = ground arith

-- The bytes of a loaded word are the bytes of the memory.
pub word_bytes-load32 :
    (m : Memory) (a : ℕ) → ((x : ℕ) → m x < 256) → word_bytes (load32 m a) ≡ load_bytes m a 4
unfolding load32 load_bytes
word_bytes-load32 m a h = ground (arith, h a, h (a + 1), h (a + 2), h (a + 3))

-- A store that is shorter than the load is followed by what stood there.
pub load_bytes-store_bytes_short :
    (m : Memory) (a n : ℕ) (bs : List ℕ)
    → length bs ≤ n
    → load_bytes (store_bytes m a bs) a n ≡ bs ++ load_bytes m (a + length bs) (n - length bs)
load_bytes-store_bytes_short m a n bs le =
    ap (load_bytes (store_bytes m a bs) a) {x = n} {y = length bs + (n - length bs)} (omega arith)
    ∙ load_bytes-append (store_bytes m a bs) a (length bs) (n - length bs)
    ∙ ap₂ ◌++◌ (load_bytes-store_bytes m a bs) (
        load_bytes_congr _ m (a + length bs) (n - length bs)
          (λ i lt. store_bytes_outside m a bs (a + length bs + i) (inr (omega arith))))

pub take-load_bytes :
    (m : Memory) (a k n : ℕ) → k ≤ n → take k (load_bytes m a n) ≡ load_bytes m a k
unfolding load_bytes
take-load_bytes m a zero n h = refl
take-load_bytes m a (suc k) zero h = absurd (omega arith)
take-load_bytes m a (suc k) (suc n) h =
    ap (λ t. m a ∷ t) (take-load_bytes m (a + 1) k n (omega arith))

-- Every byte of the memory is a byte.
abbrev pub Bytes : Memory → Type 0
Bytes m = (x : ℕ) → m x < 256

-- Every number of the list is a byte.
abbrev pub AllBytes : List ℕ → Type 0
AllBytes [] = Unit
AllBytes (b ∷ bs) = (b < 256) × AllBytes bs

pub store_bytes-Bytes :
    (m : Memory) (a : ℕ) (bs : List ℕ) → Bytes m → AllBytes bs → Bytes (store_bytes m a bs)
unfolding store_bytes
store_bytes-Bytes m a [] h all = h
store_bytes-Bytes m a (b ∷ bs) h all =
    store_bytes-Bytes (poke m a b) (a + 1) bs (λ x. ground (arith, h x)) all.1

pub take-AllBytes : (n : ℕ) (bs : List ℕ) → AllBytes bs → AllBytes (take n bs)
take-AllBytes zero bs h = tt
take-AllBytes (suc n) [] h = tt
take-AllBytes (suc n) (b ∷ bs) h = (h.0, take-AllBytes n bs h.1)
