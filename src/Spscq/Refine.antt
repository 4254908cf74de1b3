-- ===== src/Spscq/Refine.antt =====
-- The queue is a bounded first-in first-out list, whatever its indices and slots.
use huc.Base.{
  ℕ, ◌+◌, ◌-◌, ◌%◌, ◌^◌, ◌≤◌, ◌<◌, ◌≡◌, ◌↔◌, inl, inr, ap, ◌∙◌, sym, none, List, [], ◌∷◌, ◌++◌,
  arith, length, get_or, get_or-drop, get_or_past, drop, length-drop, ℕ_discrete,
}
use native.Mathlib.Nat.{one-le-pow, add-mod_right}
use huc.Spscq.{next_index, lq_write, lq_read}
use huc.Spscq.Index.{mod_eq}
use huc.Spscq.Steps.{System, Reach, start}
use huc.Spscq.Invariant.{Injective, len, Inv, next_lem}
use huc.Spscq.Fifo.{Reach-Inv}

-- A queue as a list, oldest value first, of at most `cap` values.
pub data Bounded (cap : ℕ) (q q' : List ℕ) : Type 0 where
  enqueue : (m : ℕ) → length q < cap → q' ≡ q ++ m ∷ [] → Bounded cap q q'
  dequeue : (m : ℕ) → q ≡ m ∷ q' → Bounded cap q q'

-- The values that were sent and not yet received.
abbrev pub waiting : System → List ℕ
waiting s = drop (length s.received) s.sent

module _ (k : ℕ) (smap : ℕ → ℕ) (small : k ≤ 31) (injective : Injective (len k smap) smap) where
  full_iff :
      (s : System)
      → Inv k smap s
      → (next_index s.queue s.queue.write ≡ s.queue.read)
        ↔ (length s.sent + 1 ≡ length s.received + len k smap)
  full_iff s q = (
    λ e.
        elim (mod_eq (len k smap) (length s.received) (length s.sent + 1) (omega (arith, q.behind))
          (omega (arith, q.room)) (sym q.read_at ∙ sym e ∙ next)) [
            | inl same ↦ absurd (omega (arith, q.behind))
            | inr round ↦ round
          ],
    λ e.
        next
        ∙ ap (λ t. t % len k smap) e
        ∙ add-mod_right (length s.received) (len k smap)
        ∙ sym q.read_at,
  )
    where
      next : next_index s.queue s.queue.write ≡ (length s.sent + 1) % len k smap
      next =
          ap (next_index s.queue) q.write_at ∙ next_lem k smap small injective s (length s.sent) q

  empty_iff :
      (s : System)
      → Inv k smap s
      → (s.queue.read ≡ s.queue.write) ↔ (length s.received ≡ length s.sent)
  empty_iff s q = (
    λ e.
        elim (mod_eq (len k smap) (length s.received) (length s.sent) q.behind
          (omega (arith, q.room)) (sym q.read_at ∙ e ∙ q.write_at)) [
            | inl same ↦ sym same
            | inr round ↦ absurd (omega (arith, q.room))
          ],
    λ e. q.read_at ∙ ap (λ n. n % len k smap) e ∙ sym q.write_at,
  )

  fails_iff :
      (s : System) (m : ℕ)
      → Inv k smap s
      → (lq_write smap s.queue m ≡ none) ↔ (length (waiting s) ≡ 2 ^ k - 1)
  unfolding lq_write
  fails_iff s m q = elim (ℕ_discrete (next_index s.queue s.queue.write) s.queue.read) [
    | yes e ↦ (
      λ fails. omega (arith, (full_iff s q).0 e, length-drop (length s.received) s.sent),
      λ many. ground arith,
    )
    | no ne ↦ (
      λ fails. absurd (ground arith),
      λ many. absurd (
          ne (
            (full_iff s q).1 (
              omega (
                arith,
                length-drop (length s.received) s.sent,
                q.behind,
                one-le-pow k 2 (omega arith),
              )))),
    )
  ]

  reads_oldest : (s : System) → Inv k smap s → (lq_read smap s.queue).0 ≡ get_or (waiting s) 0 0
  unfolding lq_read
  reads_oldest s q =
      elim (ℕ_discrete s.queue.read s.queue.write) [
        | yes e ↦
            ground arith
            ∙ sym
                (get_or_past 0 s.sent (length s.received + 0) (omega (arith, (empty_iff s q).0 e)))
        | no ne ↦
            let lt : length s.received < length s.sent =
              elim (ℕ_discrete (length s.received) (length s.sent)) [
                | yes e ↦ absurd (ne ((empty_iff s q).1 e))
                | no other ↦ omega (arith, q.behind)
              ] in
            ground arith
            ∙ ap (λ i. s.queue.slots (smap i)) q.read_at
            ∙ q.held (length s.received) (omega arith) lt
            ∙ ap (λ i. get_or s.sent i 0) (omega arith)
      ]
      ∙ sym (get_or-drop 0 s.sent (length s.received) 0)

  -- What an uninterrupted call would answer, in a state that the threads reach on a queue of `2 ^ k`
  -- slots (`k` at most 31, an injective order of the slots): `lq_write` fails exactly if `2 ^ k - 1` values wait, and `lq_read` returns the oldest value that
  -- waits, or 0 if none does.
  pub calls-waiting :
      {s : System} (m : ℕ)
      → Reach smap (start (len k smap)) s
      → ((lq_write smap s.queue m ≡ none) ↔ (length (waiting s) ≡ 2 ^ k - 1))
        × ((lq_read smap s.queue).0 ≡ get_or (waiting s) 0 0)
  calls-waiting {s} m r =
      let q = Reach-Inv k smap small injective r in (fails_iff s m q, reads_oldest s q)
