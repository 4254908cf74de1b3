-- ===== src/Daemon/Recv/Loop.antt =====
-- The payload loop fetches the payload, rounded up to whole words.
use huc.Base.{
  ℕ, zero, suc, ◌+◌, ◌-◌, ◌*◌, ◌/◌, ◌%◌, ◌^◌, ◌≤◌, ◌<◌, ◌≡◌, ap, ap₂, ◌∙◌, sym, List, ◌++◌, arith,
  true, false, append_assoc, dec_lt,
}
use huc.Memory.{load_bytes}
use huc.Memory.Laws.{Bytes, load_bytes-append}
use huc.Msg.{Header}
use huc.Hucdev.{HucState}
use huc.Driver.{Driver, take_word, consume, not_positive}
use huc.Driver.Window.{read-load_bytes}
use huc.Daemon.Recv.{Calls, Fetch, received, recv_payload}

-- The words that hold `n` bytes, in bytes.
abbrev pub round_up : ℕ → ℕ
round_up n = (n + 3) / 4 * 4

-- No signal and no fault disturbs the fetch.
pub record Calm (c : Calls) : Type 0 where
  pub seeks_header : c.seek_header ≡ true
  pub seeks_payload : c.seek_payload ≡ true
  pub mallocs : c.malloc ≡ true
  pub undisturbed : (off : ℕ) → c.signalled off ≡ false
  pub mapped : (off : ℕ) → c.faults off ≡ false

module _ {c : Calls} (calm : Calm c) (dev : HucState) (bytes : Bytes dev.buf) (h : Header) where
  -- One round: four more bytes, as long as some are missing.
  recv_payload_round :
      (fuel k : ℕ) (written : List ℕ) (off : ℕ)
      → 0 < k
      → k < 2 ^ 16
      → off % 4 ≡ 0
      → 4 ≤ off
      → off < 65536
      → recv_payload c dev h (suc fuel) k written (record { flag = 1; payload_left = k }) off
        ≡ recv_payload c dev h fuel
            ((k + 2 ^ 32 - 4) % 2 ^ 32)
            (written ++ load_bytes dev.buf off 4)
            (consume (record { flag = 1; payload_left = k }) 4)
            (off + 4)
  unfolding recv_payload take_word
  recv_payload_round fuel k written off pos small aligned lo hi = ground (
    arith,
    calm.undisturbed off,
    calm.mapped off,
    read-load_bytes (record { flag = 1; payload_left = k }) dev off bytes aligned lo hi,
  )

  recv_payload_done :
      (fuel left : ℕ) (written : List ℕ) (d : Driver) (off : ℕ)
      → not_positive left ≡ true
      → recv_payload c dev h (suc fuel) left written d off ≡ received h written d off
  unfolding recv_payload
  recv_payload_done fuel left written d off e = ground arith

  consume_last :
      (k : ℕ)
      → 0 < k
      → k ≤ 4
      → consume (record { flag = 1; payload_left = k }) 4
        ≡ record { flag = 0; payload_left = (k + 2 ^ 32 - 4) % 2 ^ 32 }
  unfolding consume
  consume_last k pos le = ground arith

  pub consume_more :
      (k : ℕ)
      → 4 < k
      → k < 2 ^ 16
      → consume (record { flag = 1; payload_left = k }) 4
        ≡ record { flag = 1; payload_left = k - 4 }
  unfolding consume
  consume_more k lt small = ground arith

  -- What the loop has fetched when it ends.
  abbrev fetched : ℕ → List ℕ → ℕ → Fetch
  fetched k written off =
      received h (written ++ load_bytes dev.buf off (round_up k))
        (record { flag = 0; payload_left = (k + 2 ^ 32 - round_up k) % 2 ^ 32 }) (off + round_up k)

  load_bytes_round :
      (k : ℕ) (written : List ℕ) (off : ℕ)
      → 4 < k
      → (written ++ load_bytes dev.buf off 4) ++ load_bytes dev.buf (off + 4) (round_up (k - 4))
        ≡ written ++ load_bytes dev.buf off (round_up k)
  load_bytes_round k written off lt =
      append_assoc written _ _
      ∙ ap (λ t. written ++ t)
          (sym (load_bytes-append dev.buf off 4 (round_up (k - 4)))
            ∙ ap (load_bytes dev.buf off) (omega arith))

  one_word :
      (k off : ℕ) → 0 < k → k ≤ 4 → load_bytes dev.buf off 4 ≡ load_bytes dev.buf off (round_up k)
  one_word k off pos le = ap (load_bytes dev.buf off) (omega arith)

  -- A payload of `k` bytes that lies before the end of the window, with a driver that expects `k`
  -- bytes: with more fuel than `k` the loop ends, has fetched the payload rounded up to whole words,
  -- and leaves the driver with nothing to read.
  pub recv_payload-fetched :
      (fuel k : ℕ) (written : List ℕ) (off : ℕ)
      → 0 < k
      → off % 4 ≡ 0
      → 4 ≤ off
      → off + k ≤ 65536
      → k < fuel
      → recv_payload c dev h fuel k written (record { flag = 1; payload_left = k }) off
        ≡ fetched k written off
  recv_payload-fetched zero k written off pos aligned lo hi enough = absurd (omega arith)
  recv_payload-fetched (suc zero) k written off pos aligned lo hi enough = absurd (omega arith)
  recv_payload-fetched (suc (suc fuel)) k written off pos aligned lo hi enough = elim (dec_lt 4 k) [
    | yes more ↦
        recv_payload_round (suc fuel) k written off pos (omega arith) aligned lo (omega arith)
        ∙ ap₂
            (λ l d.
              recv_payload c dev h (suc fuel) l (written ++ load_bytes dev.buf off 4) d (off + 4))
            (omega arith) (consume_more k more (omega arith))
        ∙ recv_payload-fetched (suc fuel) (k - 4) (written ++ load_bytes dev.buf off 4) (off + 4)
            (omega arith) (omega arith) (omega arith) (omega arith) (omega arith)
        ∙ ground (arith, load_bytes_round k written off more)
    | no last ↦
        recv_payload_round (suc fuel) k written off pos (omega arith) aligned lo (omega arith)
        ∙ recv_payload_done fuel _ _ _ _ (ground arith)
        ∙ ground (arith, consume_last k pos (omega arith), one_word k off pos (omega arith))
  ]
