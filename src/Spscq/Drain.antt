-- ===== src/Spscq/Drain.antt =====
-- The consumer can always catch up.
use huc.Base.{
  ℕ, zero, suc, ◌+◌, ◌-◌, ◌≤◌, ◌<◌, ◌≡◌, ◌≢◌, refl, ap, ◌∙◌, sym, [], ◌∷◌, ◌++◌, arith, length,
  get_or_ext, length-append,
}
use mathlib.Core.Path.{subst}
use huc.Spscq.{next_index}
use huc.Spscq.Index.{mod_ne}
use huc.Spscq.Steps.{
  Consumer, has_data, loaded, System, Step, check_data, load_slot, release, Reach, here, later,
  start,
}
use huc.Spscq.Invariant.{Injective, len, Inv}
use huc.Spscq.Fifo.{Step-Inv, Reach-Inv}

module _ (k : ℕ) (smap : ℕ → ℕ) (small : k ≤ 31) (injective : Injective (len k smap) smap) where
  -- What steps of the consumer alone lead to: a state with `n` more values received.
  record Ahead (n : ℕ) (s t : System) : Type 0 where
    run : Reach smap s t
    inv : Inv k smap t
    sent_kept : t.sent ≡ s.sent
    more : length t.received ≡ length s.received + n
    rest : t.consumer ≡ Consumer.outside

  releases :
      (s : System) (m read : ℕ)
      → s.consumer ≡ loaded m read
      → Inv k smap s
      → (t : System) × Ahead 1 s t
  releases s m read at q =
      let st = release m read at in
      (
        record s {
          queue = record (s.queue) { read = next_index s.queue read };
          consumer = Consumer.outside;
          received = s.received ++ m ∷ [];
        },
        record {
          run = later here st;
          inv = Step-Inv k smap small injective st q;
          sent_kept = refl;
          more = length-append s.received (m ∷ []);
          rest = refl;
        },
      )

  Reach-trans : {s t u : System} → Reach smap s t → Reach smap t u → Reach smap s u
  Reach-trans r here = r
  Reach-trans r (later r' st) = later (Reach-trans r r') st

  Ahead-trans : {s t u : System} (i j : ℕ) → Ahead i s t → Ahead j t u → Ahead (i + j) s u
  Ahead-trans i j a b = record {
    run = Reach-trans a.run b.run;
    inv = b.inv;
    sent_kept = b.sent_kept ∙ a.sent_kept;
    more = omega (arith, b.more, a.more);
    rest = b.rest;
  }

  -- A step that receives nothing, and then the rest of a call.
  goes_on :
      {s t u : System}
      → Step smap s t
      → t.sent ≡ s.sent
      → t.received ≡ s.received
      → Ahead 1 t u
      → Ahead 1 s u
  goes_on st same same' a = record {
    run = Reach-trans (later here st) a.run;
    inv = a.inv;
    sent_kept = a.sent_kept ∙ same;
    more = a.more ∙ ap (λ xs. length xs + 1) same';
    rest = a.rest;
  }

  loads :
      (s : System) (read : ℕ)
      → s.consumer ≡ has_data read
      → Inv k smap s
      → (t : System) × Ahead 1 s t
  loads s read at q =
      let st = load_slot read at in
      let (t, a) =
        releases (record s { consumer = loaded (s.queue.slots (smap read)) read }) _ read refl
          (Step-Inv k smap small injective st q) in
      (t, goes_on st refl refl a)

  -- A consumer that is outside finds data if some is there.
  calls :
      (s : System)
      → s.consumer ≡ Consumer.outside
      → length s.received < length s.sent
      → Inv k smap s
      → (t : System) × Ahead 1 s t
  calls s at lt q =
      let data_there : s.queue.read ≢ s.queue.write = λ e.
        mod_ne (len k smap) (length s.received) (length s.sent) lt q.room
          (sym q.read_at ∙ e ∙ q.write_at) in
      let st = check_data at data_there in
      let (t, a) =
        loads (record s { consumer = has_data s.queue.read }) _ refl
          (Step-Inv k smap small injective st q) in
      (t, goes_on st refl refl a)

  -- The consumer ends the call that it is in.
  finishes :
      (s : System) (c : Consumer)
      → s.consumer ≡ c
      → Inv k smap s
      → (t : System) × (n : ℕ) × Ahead n s t
  finishes s Consumer.outside at q =
      (s, 0, record { run = here; inv = q; sent_kept = refl; more = omega arith; rest = at })
  finishes s (has_data read) at q = let (t, a) = loads s read at q in (t, 1, a)
  finishes s (loaded m read) at q = let (t, a) = releases s m read at q in (t, 1, a)

  catches_up :
      (n : ℕ) (s : System)
      → s.consumer ≡ Consumer.outside
      → length s.received + n ≡ length s.sent
      → Inv k smap s
      → (t : System) × Ahead n s t
  catches_up zero s at e q =
      (s, record { run = here; inv = q; sent_kept = refl; more = omega arith; rest = at })
  catches_up (suc n) s at e q =
      let (t, a) = calls s at (omega arith) q in
      let (u, b) = catches_up n t a.rest (omega (arith, e, a.more, ap length a.sent_kept)) a.inv in
      (u, subst (λ i. Ahead i s u) (omega arith) (Ahead-trans 1 n a b))

  -- On a queue of `2 ^ k` slots, `k` at most 31, with an injective order of the slots: from every state
  -- that the threads reach, steps lead on to a state in which nothing more was sent, the consumer is
  -- outside, and it has received all that was sent, in order. No interleaving leaves values behind.
  pub received_all :
      {s : System}
      → Reach smap (start (len k smap)) s
      → (t : System) × Reach smap s t
        × (t.sent ≡ s.sent)
        × (t.consumer ≡ Consumer.outside)
        × (t.received ≡ s.sent)
  received_all {s} r =
      let (t, n, a) = finishes s s.consumer refl (Reach-Inv k smap small injective r) in
      let (u, b) =
        catches_up (length t.sent - length t.received) t a.rest (omega (arith, a.inv.behind))
          a.inv in
      (
        u,
        Reach-trans a.run b.run,
        b.sent_kept ∙ a.sent_kept,
        b.rest,
        get_or_ext 0 u.received u.sent (omega (arith, b.more, a.inv.behind, ap length b.sent_kept))
              (λ i lt. b.inv.order i lt)
            ∙ b.sent_kept
            ∙ a.sent_kept,
      )
