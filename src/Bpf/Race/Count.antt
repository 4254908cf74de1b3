-- ===== src/Bpf/Race/Count.antt =====
-- The counter counts: no addition is lost, and no CPU overwrites it.
use huc.Base.{
  ℕ, ◌+◌, ◌^◌, ◌≤◌, ◌<◌, ◌≡◌, ap, ◌∙◌, sym, some, ◌==◌, if◌then◌else◌, u32, u64, arith, dec_lt,
  ℕ_discrete, ==_refl, ==-false,
}
use mathlib.Core.Path.{subst}
use huc.Bpf.{BpfArray, max_entries}
use huc.Bpf.Race.{
  Local, idle, entered, checked, added, indexed, at_cpu, Cpus, Step, enter, no_top, full, check,
  add, read_index, store, Reach, here, next,
}

module _ (b : BpfArray) (c : ℕ) where
  open b use {Map, lookup, update, lookup-update, update_out}

  -- What a CPU's locals mean after `n` additions.
  abbrev pub LocalOk : ℕ → Local → Type 0
  LocalOk n idle = Unit
  LocalOk n (entered mask) = Unit
  LocalOk n (checked mask) = Unit
  LocalOk n (added mask) = 1 ≤ n
  LocalOk n (indexed mask index) = (1 ≤ index) × (index ≤ c + n)

  pub record Counted (s : Cpus b) : Type 0 where
    pub count : lookup s.map 0 ≡ some (c + s.adds)
    locals_ok : (i : ℕ) → LocalOk s.adds (s.locals i)

  LocalOk-more : (n : ℕ) (l : Local) → LocalOk n l → LocalOk (n + 1) l
  LocalOk-more n idle h = tt
  LocalOk-more n (entered mask) h = tt
  LocalOk-more n (checked mask) h = tt
  LocalOk-more n (added mask) h = omega arith
  LocalOk-more n (indexed mask index) h = omega arith

  -- A step that changes the locals of one CPU.
  at_cpu-LocalOk :
      (n i : ℕ) (l : Local) (locals : ℕ → Local)
      → ((j : ℕ) → LocalOk n (locals j))
      → LocalOk n l
      → (j : ℕ) → LocalOk n (at_cpu i l locals j)
  at_cpu-LocalOk n i l locals all ok j = elim (ℕ_discrete i j) [
    | yes e ↦
        subst (λ t. LocalOk n (if t then l else locals j))
          (sym (ap (λ k. i == k) (sym e) ∙ ==_refl i)) ok
    | no ne ↦ subst (λ t. LocalOk n (if t then l else locals j)) (sym (==-false i j ne)) (all j)
  ]

  adds_grow : {s t : Cpus b} → Step b s t → s.adds ≤ t.adds
  adds_grow (enter i mask at) = omega arith
  adds_grow (no_top i mask at e) = omega arith
  adds_grow (full i mask at e) = omega arith
  adds_grow (check i mask top at e ne) = omega arith
  adds_grow (add i mask top at e) = omega arith
  adds_grow (read_index i mask top at e) = omega arith
  adds_grow (store i mask index at) = omega arith

  stored :
      (m : Map) (index mask n : ℕ)
      → 1 ≤ index
      → lookup m 0 ≡ some n
      → lookup (update m index mask) 0 ≡ some n
  stored m index mask n pos e = elim (dec_lt index max_entries) [
    | yes lt ↦ ground (arith, lookup-update m index mask 0 lt)
    | no ge ↦ ap (λ m'. lookup m' 0) (update_out m index mask (omega arith)) ∙ e
  ]

  Step-Counted : {s t : Cpus b} → Step b s t → c + t.adds < 2 ^ 32 → Counted s → Counted t
  Step-Counted {s} (enter i mask at) lt q = record {
    count = q.count;
    locals_ok = at_cpu-LocalOk s.adds i _ s.locals q.locals_ok tt;
  }
  Step-Counted {s} (no_top i mask at e) lt q = record {
    count = q.count;
    locals_ok = at_cpu-LocalOk s.adds i _ s.locals q.locals_ok tt;
  }
  Step-Counted {s} (full i mask at e) lt q = record {
    count = q.count;
    locals_ok = at_cpu-LocalOk s.adds i _ s.locals q.locals_ok tt;
  }
  Step-Counted {s} (check i mask top at e ne) lt q = record {
    count = q.count;
    locals_ok = at_cpu-LocalOk s.adds i _ s.locals q.locals_ok tt;
  }
  Step-Counted {s} (add i mask top at e) lt q =
      let same : top ≡ c + s.adds = ground (arith, e, q.count) in
      record {
        count = lookup-update s.map 0 (u64 (top + 1)) 0 (omega arith) ∙ ap some (omega arith);
        locals_ok =
            at_cpu-LocalOk (s.adds + 1) i (added mask) s.locals
              (λ j. LocalOk-more s.adds (s.locals j) (q.locals_ok j)) (omega arith);
      }
  Step-Counted {s} (read_index i mask top at e) lt q =
      let same : top ≡ c + s.adds = ground (arith, e, q.count) in
      let one : 1 ≤ s.adds = subst (LocalOk s.adds) at (q.locals_ok i) in
      record {
        count = q.count;
        locals_ok =
            at_cpu-LocalOk s.adds i (indexed mask (u32 top)) s.locals q.locals_ok (omega arith);
      }
  Step-Counted {s} (store i mask index at) lt q =
      let ok = subst (LocalOk s.adds) at (q.locals_ok i) in
      record {
        count = stored s.map index mask (c + s.adds) ok.0 q.count;
        locals_ok = at_cpu-LocalOk s.adds i idle s.locals q.locals_ok tt;
      }

  -- However the program interleaves with itself on any number of CPUs: started outside the program over
  -- a map whose counter is `c`, and as long as the daemon does not reset the counter and it stays
  -- below 2^32, the counter is `c` and the number of additions, and each CPU that is about to store a
  -- mask has an index from 1 to the counter.
  pub counter-adds :
      {s t : Cpus b}
      → Reach b s t
      → s.adds ≡ 0
      → ((i : ℕ) → s.locals i ≡ idle)
      → lookup s.map 0 ≡ some c
      → c + t.adds < 2 ^ 32
      → (lookup t.map 0 ≡ some (c + t.adds))
        × ((i mask index : ℕ)
            → t.locals i ≡ indexed mask index
            → (1 ≤ index) × (index ≤ c + t.adds))
  counter-adds {s} {t} r zero_adds outside start lt =
      let q = Reach-Counted r lt in
      (q.count, λ i mask index at. subst (LocalOk t.adds) at (q.locals_ok i))
    where
      Reach-Counted : {u : Cpus b} → Reach b s u → c + u.adds < 2 ^ 32 → Counted u
      Reach-Counted here lt' = record {
        count = start ∙ ap some (omega arith);
        locals_ok = λ i. subst (LocalOk s.adds) (sym (outside i)) tt;
      }
      Reach-Counted (next r' st) lt' =
          Step-Counted st lt' (Reach-Counted r' (omega (arith, adds_grow st)))
