-- ===== src/Hucdev/Server/Inject.antt =====
-- A message that arrives: where its bytes land, and when the guest is interrupted.
use huc.Base.{
  ℕ, ◌+◌, ◌-◌, ◌≤◌, ◌<◌, ◌≡◌, refl, ap, ◌∙◌, some, List, [], ◌++◌, arith, length, take, take_of_le,
  inl, inr, true, bit_or,
}
use huc.Memory.{Memory, store_bytes, load_bytes}
use huc.Memory.Laws.{store_bytes_outside, load_bytes_congr, load_bytes-store_bytes_short}
use huc.Msg.{Header, header_at, header_bytes, program_injection}
use huc.Msg.Laws.{Fits, header_at-header_bytes}
use huc.Hucdev.{HucState, raise_irq}
use huc.Hucdev.Irq.{irq_status-raise_irq, buf-raise_irq, irq_line-raise_irq}
use huc.Hucdev.Cpus.{CpuTable, count_only}
use huc.Hucdev.Cpus.Laws.{Vcpus, for_each_cpu-rounds}
use huc.Hucdev.Server.{handle_acceptfd, dispatch, recv}

-- The buffer after a header and what came of its payload.
abbrev pub filled : Memory → Header → List ℕ → Memory
filled m h second = recv (recv m 16 4 (header_bytes h)) 20 h.payload_len second

header_at_congr :
    (m m' : Memory) (a : ℕ)
    → ((i : ℕ) → i < 4 → m (a + i) ≡ m' (a + i))
    → header_at m a ≡ header_at m' a
unfolding header_at
header_at_congr m m' a h = ground (arith, h 0, h 1, h 2, h 3)

-- The header lies at byte 16, whatever the payload.
pub header_at-filled :
    (m : Memory) (h : Header) (second : List ℕ) → Fits h → header_at (filled m h second) 16 ≡ h
unfolding header_bytes
header_at-filled m h second f =
    header_at_congr _ _ 16
      (λ i lt. store_bytes_outside _ 20 (take h.payload_len second) (16 + i) (inl (omega arith)))
    ∙ header_at-header_bytes m 16 h f

-- Where the payload should be stand the bytes that the one `recv` delivered, and behind them
-- whatever the buffer held before.
pub load_bytes-filled :
    (m : Memory) (h : Header) (second : List ℕ)
    → length second ≤ h.payload_len
    → load_bytes (filled m h second) 20 h.payload_len
      ≡ second ++ load_bytes m (20 + length second) (h.payload_len - length second)
unfolding header_bytes
load_bytes-filled m h second le =
    ap (λ bs. load_bytes (store_bytes (recv m 16 4 (header_bytes h)) 20 bs) 20 h.payload_len)
      (take_of_le h.payload_len second le)
    ∙ load_bytes-store_bytes_short _ 20 h.payload_len second le
    ∙ ap (λ t. second ++ t)
        (load_bytes_congr _ m (20 + length second) (h.payload_len - length second) (λ i lt.
          store_bytes_outside m 16 (header_bytes h) (20 + length second + i) (inr (omega arith))))

-- A whole header is dispatched on as it was sent.
pub handle_acceptfd-dispatch :
    (get_cpu : CpuTable) (fuel : ℕ) (s : HucState) (h : Header) (second : List ℕ) (junk : ℕ)
    → Fits h
    → handle_acceptfd get_cpu fuel s (header_bytes h) second junk
      ≡ dispatch get_cpu fuel (record s { buf = filled s.buf h second }) h.type junk
unfolding handle_acceptfd header_bytes
handle_acceptfd-dispatch get_cpu fuel s h second junk f =
    ap
      (λ (x : Header).
        dispatch get_cpu fuel
          (record s { buf = recv (recv s.buf 16 4 (header_bytes h)) 20 x.payload_len second })
          x.type junk)
      (header_at-header_bytes s.buf 16 h f)

module _ {get_cpu : CpuTable} {n : ℕ} {thread : ℕ → ℕ} (v : Vcpus get_cpu n thread) (fuel : ℕ)
    (enough : n < fuel) where
  dispatch-program_injection :
      (s : HucState) (junk : ℕ)
      → dispatch get_cpu fuel s program_injection junk ≡ some (raise_irq s 1, [])
  unfolding dispatch
  dispatch-program_injection s junk =
      ground (arith, for_each_cpu-rounds v count_only n 0 fuel (omega arith) enough)

  pub handle_acceptfd-raise_irq :
      (s : HucState) (h : Header) (second : List ℕ) (junk : ℕ)
      → Fits h
      → h.type ≡ program_injection
      → handle_acceptfd get_cpu fuel s (header_bytes h) second junk
        ≡ some (raise_irq (record s { buf = filled s.buf h second }) 1, [])
  handle_acceptfd-raise_irq s h second junk f e =
      handle_acceptfd-dispatch get_cpu fuel s h second junk f
      ∙ ap (λ x. dispatch get_cpu fuel (record s { buf = filled s.buf h second }) x junk) e
      ∙ dispatch-program_injection (record s { buf = filled s.buf h second }) junk

  -- A PROGRAM_INJECTION whose header arrives whole: the handler returns and sends nothing, the
  -- buffer holds the header at byte 16, then what the second `recv` delivered and, if that was less
  -- than the announced length, bytes that stood there before; the interrupt is raised with bit 0.
  handle_acceptfd-program_injection :
      (s : HucState) (h : Header) (second : List ℕ) (junk : ℕ)
      → Fits h
      → h.type ≡ program_injection
      → length second ≤ h.payload_len
      → (t : HucState) × (handle_acceptfd get_cpu fuel s (header_bytes h) second junk
          ≡ some (t, []))
        × (header_at t.buf 16 ≡ h)
        × (load_bytes t.buf 20 h.payload_len
            ≡ second ++ load_bytes s.buf (20 + length second) (h.payload_len - length second))
        × (t.irq_status ≡ bit_or s.irq_status 1)
        × (t.irq_line ≡ true)
  handle_acceptfd-program_injection s h second junk f e le = (
    raise_irq arrived 1,
    handle_acceptfd-raise_irq s h second junk f e,
    ap (λ m. header_at m 16) (buf-raise_irq arrived 1) ∙ header_at-filled s.buf h second f,
    ap (λ m. load_bytes m 20 h.payload_len) (buf-raise_irq arrived 1)
        ∙ load_bytes-filled s.buf h second le,
    irq_status-raise_irq arrived 1,
    irq_line-raise_irq arrived 0 1 refl,
  )
    where
      arrived : HucState
      arrived = record s { buf = filled s.buf h second }
