-- ===== src/Hucdev/Server/Stream.antt =====
-- The client's socket as a stream of bytes. TCP keeps no borders between messages: each call of `recv`
-- takes from the front of what has arrived.
pub mod Late
use huc.Base.{
  length-append, Bool, true, false, ◌&&◌, not, ◌==◌, if◌then◌else◌, ℕ, zero, suc, ◌+◌, ◌≤◌, ◌<◌,
  ◌≡◌, refl, ap, ◌∙◌, sym, Option, none, some, List, [], ◌∷◌, ◌++◌, length, take, drop, take_of_le,
  append_assoc, arith,
}
use mathlib.Core.Path.{subst}
use huc.Memory.{Memory, store_bytes}
use huc.Msg.{Header, header_at, header_bytes, header_size}
use huc.Msg.Laws.{Fits, header_at-header_bytes}
use huc.Hucdev.{HucState, Effect}
use huc.Hucdev.Cpus.{CpuTable}
use huc.Hucdev.Mmio.{header_offset}
use huc.Hucdev.Server.{dispatch, handle_acceptfd, recv}
use huc.Hucdev.Server.Inject.{filled, handle_acceptfd-dispatch}

-- What a call of `handle_acceptfd` leaves of the bytes that have arrived: it takes a header, and then as
-- many bytes as the header announces that lies in the buffer afterwards. At the end of the stream it
-- takes nothing.
unfoldable pub unread : HucState → List ℕ → List ℕ
unread s [] = []
unread s (b ∷ bs) =
    drop (header_at (recv s.buf header_offset header_size (b ∷ bs)) header_offset).payload_len
      (drop header_size (b ∷ bs))

-- A message: its header, its payload, and what `CPU_ALLOC` returns when it is handled.
pub record Message : Type 0 where
  pub header : Header
  pub payload : List ℕ
  pub junk : ℕ

-- A header within its fields, and as much payload as it announces.
pub record IsWhole (m : Message) : Type 0 where
  pub fits : Fits m.header
  pub whole : length m.payload ≡ m.header.payload_len

abbrev pub AllWhole : List Message → Type 0
AllWhole [] = Unit
AllWhole (m ∷ ms) = IsWhole m × AllWhole ms

-- What a client sends for the messages.
unfoldable pub wire : List Message → List ℕ
wire [] = []
wire (m ∷ ms) = header_bytes m.header ++ (m.payload ++ wire ms)

abbrev pub junks : List Message → List ℕ
junks [] = []
junks (m ∷ ms) = m.junk ∷ junks ms

-- Whether the second `recv` of a call blocks: nothing has come behind the header, which announces a
-- payload. The socket that `accept` returns is a blocking one.
unfoldable pub waits : HucState → List ℕ → Bool
waits s [] = false
waits s (b ∷ bs) =
    let header = header_at (recv s.buf header_offset header_size (b ∷ bs)) header_offset in
    length (drop header_size (b ∷ bs)) == 0 && not (header.payload_len == 0)

module _ (get_cpu : CpuTable) (fuel : ℕ) where
  -- A call of `handle_acceptfd` with the bytes `stream` in the socket, `none` if it does not return for
  -- want of more.
  unfoldable pub handle_stream : HucState → List ℕ → ℕ → Option (HucState × List ℕ × List Effect)
  unfolding unread waits
  handle_stream s stream junk =
      if waits s stream
      then none
      else elim (handle_acceptfd get_cpu fuel s stream (drop header_size stream) junk) [
        | none ↦ none
        | some (t, out) ↦ some (t, unread s stream, out)
      ]

  -- One call for each `junk`.
  unfoldable pub handle_streams :
      HucState → List ℕ → List ℕ → Option (HucState × List ℕ × List Effect)
  handle_streams s stream [] = some (s, stream, [])
  handle_streams s stream (junk ∷ js) = elim (handle_stream s stream junk) [
    | none ↦ none
    | some (t, rest, out) ↦ elim (handle_streams t rest js) [
      | none ↦ none
      | some (u, rest', out') ↦ some (u, rest', out ++ out')
    ]
  ]

  -- The server's contract: a message is a unit. It lies in the buffer and is acted on.
  unfoldable pub deliver : HucState → Message → Option (HucState × List Effect)
  deliver s m =
      dispatch get_cpu fuel (record s { buf = filled s.buf m.header m.payload }) m.header.type
        m.junk

  unfoldable pub deliver_all : HucState → List Message → Option (HucState × List Effect)
  deliver_all s [] = some (s, [])
  deliver_all s (m ∷ ms) = elim (deliver s m) [
    | none ↦ none
    | some (t, out) ↦ elim (deliver_all t ms) [
      | none ↦ none
      | some (u, out') ↦ some (u, out ++ out')
    ]
  ]

  -- The messages behind the first, after its result.
  abbrev pub then_all :
      List Message → Option (HucState × List Effect) → Option (HucState × List Effect)
  then_all ms none = none
  then_all ms (some (t, out)) = elim (deliver_all t ms) [
    | none ↦ none
    | some (u, out') ↦ some (u, out ++ out')
  ]

  -- The result with the bytes that are left.
  abbrev pub leaving :
      List ℕ → Option (HucState × List Effect) → Option (HucState × List ℕ × List Effect)
  leaving rest none = none
  leaving rest (some (t, out)) = some (t, rest, out)

take-append : (k : ℕ) (xs ys : List ℕ) → length xs ≡ k → take k (xs ++ ys) ≡ xs
take-append zero [] ys e = refl
take-append zero (x ∷ xs) ys e = absurd (omega arith)
take-append (suc k) [] ys e = absurd (omega arith)
take-append (suc k) (x ∷ xs) ys e = ap (λ t. x ∷ t) (take-append k xs ys (omega arith))

drop-append : (k : ℕ) (xs ys : List ℕ) → length xs ≡ k → drop k (xs ++ ys) ≡ ys
drop-append zero [] ys e = refl
drop-append zero (x ∷ xs) ys e = absurd (omega arith)
drop-append (suc k) [] ys e = absurd (omega arith)
drop-append (suc k) (x ∷ xs) ys e = drop-append k xs ys (omega arith)

-- What has come behind a header is enough for the second `recv` to return.
abbrev pub IsReady : Header → List ℕ → Type 0
IsReady h bs = (length bs == 0 && not (h.payload_len == 0)) ≡ false

pub waits-header :
    (s : HucState) (h : Header) (bs : List ℕ)
    → Fits h
    → waits s (header_bytes h ++ bs) ≡ (length bs == 0 && not (h.payload_len == 0))
unfolding waits header_bytes
waits-header s h bs fits =
    ap (λ (x : Header). length bs == 0 && not (x.payload_len == 0))
      (header_at-header_bytes s.buf 16 h fits)

whole-IsReady : (m : Message) (more : List ℕ) → IsWhole m → IsReady m.header (m.payload ++ more)
whole-IsReady m more q = ground (arith, q.whole, length-append m.payload more)

module _ (get_cpu : CpuTable) (fuel : ℕ) where
  -- A header at the front of the stream is dispatched on, and the payload is what stands behind it, as
  -- far as it is announced.
  pub handle_stream-header :
      (s : HucState) (h : Header) (bs : List ℕ) (junk : ℕ)
      → Fits h
      → IsReady h bs
      → handle_stream get_cpu fuel s (header_bytes h ++ bs) junk
        ≡ leaving get_cpu fuel
            (drop h.payload_len bs)
            (dispatch get_cpu fuel (record s { buf = filled s.buf h bs }) h.type junk)
  unfolding handle_stream unread header_bytes handle_acceptfd
  handle_stream-header s h bs junk fits ready =
      ap
        (λ w.
          if w then none else elim (handle_acceptfd get_cpu fuel s (header_bytes h ++ bs) bs junk) [
            | none ↦ none
            | some (t, out) ↦ some (t, unread s (header_bytes h ++ bs), out)
          ])
        (waits-header s h bs fits ∙ ready)
      ∙ ap
          (λ (x : Header). leaving get_cpu fuel (drop x.payload_len bs) (
            dispatch get_cpu fuel
              (record s { buf = recv (recv s.buf 16 4 (header_bytes h)) 20 x.payload_len bs })
              x.type junk))
          (header_at-header_bytes s.buf 16 h fits)

  -- One whole message, whatever stands behind it.
  pub handle_stream-deliver :
      (s : HucState) (m : Message) (more : List ℕ)
      → IsWhole m
      → handle_stream get_cpu fuel s (header_bytes m.header ++ (m.payload ++ more)) m.junk
        ≡ leaving get_cpu fuel more (deliver get_cpu fuel s m)
  unfolding deliver header_bytes
  handle_stream-deliver s m more q =
      let h : Header = m.header in
      let paid : take h.payload_len (m.payload ++ more) ≡ take h.payload_len m.payload =
        take-append h.payload_len m.payload more q.whole
        ∙ sym (take_of_le h.payload_len m.payload (omega (arith, q.whole))) in
      handle_stream-header s h (m.payload ++ more) m.junk q.fits (whole-IsReady m more q)
      ∙ ap
          (λ bs. leaving get_cpu fuel bs (
            dispatch get_cpu fuel (record s { buf = filled s.buf h (m.payload ++ more) }) h.type
              m.junk))
          (drop-append h.payload_len m.payload more q.whole)
      ∙ ap
          (λ bs. leaving get_cpu fuel more (
            dispatch get_cpu fuel
              (record s { buf = store_bytes (recv s.buf 16 4 (header_bytes h)) 20 bs }) h.type
              m.junk))
          paid

  -- The calls behind the first, when they do what the messages do.
  chained :
      (s : HucState) (stream rest more js : List ℕ) (junk : ℕ) (ms : List Message)
      (x : Option (HucState × List Effect))
      → handle_stream get_cpu fuel s stream junk ≡ leaving get_cpu fuel rest x
      → ((t : HucState)
          → handle_streams get_cpu fuel t rest js
            ≡ leaving get_cpu fuel more (deliver_all get_cpu fuel t ms))
      → handle_streams get_cpu fuel s stream (junk ∷ js)
        ≡ leaving get_cpu fuel more (then_all get_cpu fuel ms x)
  unfolding handle_streams
  chained s stream rest more js junk ms none e others = ground (arith, e)
  chained s stream rest more js junk ms (some (t, out)) e others = ground (arith, e, others t)

  -- Framing. When all the bytes of any number of whole messages have arrived, and whatever bytes behind
  -- them, as many calls of the handler do to the device, and ask of the host, what the messages do as
  -- units, one after the other, and leave the bytes behind them.
  pub handle_streams-deliver_all :
      (s : HucState) (ms : List Message) (more : List ℕ)
      → AllWhole ms
      → handle_streams get_cpu fuel s (wire ms ++ more) (junks ms)
        ≡ leaving get_cpu fuel more (deliver_all get_cpu fuel s ms)
  unfolding handle_streams deliver_all wire header_bytes
  handle_streams-deliver_all s [] more q = refl
  handle_streams-deliver_all s (m ∷ ms) more q =
      let one = handle_stream-deliver s m (wire ms ++ more) q.0 in
      let same : wire (m ∷ ms) ++ more ≡ header_bytes m.header ++ (m.payload ++ (wire ms ++ more)) =
        append_assoc (header_bytes m.header) (m.payload ++ wire ms) more
        ∙ ap (λ t. header_bytes m.header ++ t) (append_assoc m.payload (wire ms) more) in
      ap (λ stream. handle_streams get_cpu fuel s stream (m.junk ∷ junks ms)) same
      ∙ chained s _ (wire ms ++ more) more (junks ms) m.junk ms (deliver get_cpu fuel s m) one
          (λ t. handle_streams-deliver_all t ms more q.1)
