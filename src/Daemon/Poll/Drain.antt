-- ===== src/Daemon/Poll/Drain.antt =====
-- A round of polling forwards the logged masks, newest first, behind one mask that nobody asked for,
-- and leaves an empty log.
use huc.Base.{
  ℕ, zero, suc, ◌+◌, ◌-◌, ◌≤◌, ◌<◌, ◌≡◌, refl, ap, ◌∙◌, sym, some, List, [], ◌∷◌, ◌++◌, arith,
  length, get_or, get_or_past, append-nil, append_assoc, length-append,
}
use mathlib.Core.Path.{subst}
use mathlib.Core.List.{reverse, reverse-append}
use huc.Bpf.{BpfArray, bpf_prog1}
use huc.Bpf.Log.{IsLog, bpf_prog1-IsLog}
use huc.Daemon.Poll.{scan, poll}
use huc.Daemon.Poll.Scan.{nonzero, newest_first, scan-Scanned, scan_mask}

newest_first-cons :
    (x : ℕ) (ms : List ℕ) (i : ℕ) → newest_first (x ∷ ms) (suc i) ≡ newest_first ms i ++ x ∷ []
newest_first-cons x ms zero = refl
newest_first-cons x ms (suc i) = ap (λ t. get_or ms i 0 ∷ t) (newest_first-cons x ms i)

pub newest_first-reverse : (ms : List ℕ) → newest_first ms (length ms) ≡ reverse ms
newest_first-reverse [] = refl
newest_first-reverse (x ∷ ms) =
    newest_first-cons x ms (length ms)
    ∙ ap (λ t. t ++ x ∷ []) (newest_first-reverse ms)
    ∙ sym (reverse-append (x ∷ []) ms)

-- Behind the end of the log there is nothing to forward.
pub nonzero_past :
    (ms : List ℕ) (k : ℕ)
    → nonzero (newest_first ms (k + length ms)) ≡ nonzero (newest_first ms (length ms))
unfolding nonzero
nonzero_past ms zero = ap (λ i. nonzero (newest_first ms i)) (omega arith)
nonzero_past ms (suc k) =
    ap (λ i. nonzero (newest_first ms i)) {y = suc (k + length ms)} (omega arith)
    ∙ ground (arith, get_or_past 0 ms (k + length ms) (omega arith), nonzero_past ms k)

module _ (b : BpfArray) where
  open b use {Map, lookup, update, lookup-update, lookup_out, update_out}

  -- With a counter that is not zero, the round first forwards the counter.
  pub poll-scan :
      (v c : ℕ) (m : Map)
      → lookup m 0 ≡ some c
      → 0 < c
      → let (sent, value, m') = scan b 63 0 m in poll b v m ≡ (c ∷ sent, value, update m' 0 value)
  unfolding poll
  poll-scan v c m counter some_logged = ground (arith, counter, spurious)
    where
      spurious : let (sent, value, m') = scan b 63 0 m in scan b 64 c m ≡ (c ∷ sent, value, m')
      spurious =
          scan_mask b 63 m c c (ground (arith, lookup_out m 64 (omega arith))) (omega arith)
          ∙ ap (λ t. let (sent, value, m') = scan b 63 0 t in (c ∷ sent, value, m'))
              (update_out m 64 0 (omega arith))

  -- A round of polling over a log that is not empty: its ioctls carry first the number of logged
  -- masks, which no call asked for, then the masks that are not zero, newest first, so that the
  -- oldest is applied last; `value` ends at zero and the log is empty.
  pub poll_drains :
      (v : ℕ) (m : Map) (ms : List ℕ)
      → IsLog b m ms
      → 0 < length ms
      → let (sent, value, m') = poll b v m in
        (sent ≡ length ms ∷ nonzero (reverse ms)) × (value ≡ 0) × IsLog b m' []
  poll_drains v m ms q some_logged =
      let (sent, value, m') = scan b 63 0 m in
      let done = scan-Scanned b 63 m ms (omega arith) (λ j lt. q.masks j (omega arith)) in
      subst
        (λ (out : List ℕ × ℕ × Map).
          (out.0 ≡ length ms ∷ nonzero (reverse ms)) × (out.1 ≡ 0) × IsLog b out.2 [])
        (sym (poll-scan v (length ms) m q.counter some_logged))
        (
          ap (λ t. length ms ∷ t)
              (done.sent
                ∙ ap (λ i. nonzero (newest_first ms i)) {x = 63} {y = 63 - length ms + length ms}
                    (omega arith)
                ∙ nonzero_past ms (63 - length ms)
                ∙ ap nonzero (newest_first-reverse ms)),
          done.value,
          record {
            fits = omega arith;
            counter = ground (arith, done.value, lookup-update m' 0 value 0 (omega arith));
            masks = λ i lt.
                ground (arith, done.cleared i, lookup-update m' 0 value (suc i) (omega arith));
          },
        )

  -- A round over an empty log makes no ioctl and changes nothing.
  pub poll_idle : (v : ℕ) (m : Map) → IsLog b m [] → poll b v m ≡ ([], 0, m)
  unfolding poll
  poll_idle v m q = ground (arith, q.counter)

  -- The calls of the traced function, one after the other.
  abbrev pub log_all : Map → List ℕ → Map
  log_all m [] = m
  log_all m (x ∷ xs) = log_all (bpf_prog1 b m x) xs

  pub log_all-IsLog :
      (m : Map) (ms xs : List ℕ)
      → IsLog b m ms
      → length ms + length xs ≤ 63
      → IsLog b (log_all m xs) (ms ++ xs)
  log_all-IsLog m ms [] q h = subst (IsLog b m) (sym (append-nil ms)) q
  log_all-IsLog m ms (x ∷ xs) q h =
      subst (IsLog b (log_all (bpf_prog1 b m x) xs)) (append_assoc ms (x ∷ []) xs) (
        log_all-IsLog (bpf_prog1 b m x) (ms ++ x ∷ []) xs (bpf_prog1-IsLog b m ms x q (omega arith))
          (omega (arith, length-append ms (x ∷ []))))

  -- From the guest's affinity calls to the ioctls: after 1 to 63 calls with the masks `xs` on an
  -- empty log, the next round of polling makes an ioctl with the number of calls as its mask, then
  -- one for each mask that is not zero, in the reverse order of the calls, and empties the log.
  pub poll-log_all :
      (v : ℕ) (m : Map) (xs : List ℕ)
      → IsLog b m []
      → 0 < length xs
      → length xs ≤ 63
      → let (sent, value, m') = poll b v (log_all m xs) in
        (sent ≡ length xs ∷ nonzero (reverse xs)) × (value ≡ 0) × IsLog b m' []
  poll-log_all v m xs q pos le =
      poll_drains v (log_all m xs) xs (log_all-IsLog m [] xs q (omega arith)) pos
