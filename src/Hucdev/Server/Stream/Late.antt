-- ===== src/Hucdev/Server/Stream/Late.antt =====
-- A message that arrives in two pieces: its payload behind its header, or its payload in two.
use huc.Base.{
  ℕ, zero, suc, ◌≤◌, ◌<◌, ◌≡◌, refl, ap, ◌∙◌, sym, length-append, Option, none, some, List, [], ◌∷◌,
  ◌++◌, length, drop, append-nil, arith, true, false, if◌then◌else◌, ◌&&◌, not, ◌==◌,
}
use huc.Msg.{Header, header_bytes, header_at}
use huc.Msg.Laws.{Fits, header_at-header_bytes}
use huc.Hucdev.{HucState, Effect}
use huc.Hucdev.Cpus.{CpuTable}
use huc.Hucdev.Mmio.{header_offset}
use huc.Hucdev.Server.{dispatch, handle_acceptfd, recv}
use huc.Hucdev.Server.Inject.{filled, handle_acceptfd-dispatch}
use huc.Hucdev.Server.Stream.{
  Message, IsWhole, IsReady, waits, waits-header, handle_stream, deliver, deliver_all, then_all,
  leaving, handle_stream-header, handle_stream-deliver,
}

drop_all : (k : ℕ) (xs : List ℕ) → length xs ≤ k → drop k xs ≡ []
drop_all zero [] le = refl
drop_all zero (x ∷ xs) le = absurd (omega arith)
drop_all (suc k) [] le = refl
drop_all (suc k) (x ∷ xs) le = drop_all k xs (omega arith)

-- Bytes that arrive, and what `CPU_ALLOC` returns in the call that they lead to.
pub record Arrival : Type 0 where
  pub bytes : List ℕ
  pub junk : ℕ

-- The server at rest with the bytes that it left in the socket; or inside a call of the handler that has
-- received `first`, with what `CPU_ALLOC` will return, and blocks in the second `recv`.
pub data Server : Type 0 where
  at_rest : (rest : List ℕ) → Server
  blocked : (first : List ℕ) (junk : ℕ) → Server

module _ (get_cpu : CpuTable) (fuel : ℕ) where
  -- Each arrival leads to a call of the handler, or lets the one go on that blocks.
  unfoldable pub handle_arrivals :
      HucState → Server → List Arrival → Option (HucState × Server × List Effect)
  handle_arrivals s w [] = some (s, w, [])
  handle_arrivals s (at_rest rest) (a ∷ later) =
      let waiting = handle_arrivals s (blocked (rest ++ a.bytes) a.junk) later in
      if waits s (rest ++ a.bytes)
      then waiting
      else elim (handle_stream get_cpu fuel s (rest ++ a.bytes) a.junk) [
        | none ↦ none
        | some (t, rest', out) ↦ elim (handle_arrivals t (at_rest rest') later) [
          | none ↦ none
          | some (u, w, out') ↦ some (u, w, out ++ out')
        ]
      ]
  handle_arrivals s (blocked first junk) (a ∷ later) =
      let header = header_at (recv s.buf header_offset 4 first) header_offset in
      elim (handle_acceptfd get_cpu fuel s first a.bytes junk) [
        | none ↦ none
        | some (t, out) ↦
            elim (handle_arrivals t (at_rest (drop header.payload_len a.bytes)) later) [
              | none ↦ none
              | some (u, w, out') ↦ some (u, w, out ++ out')
            ]
      ]

  -- The result with nothing left in the socket.
  abbrev pub resting : Option (HucState × List Effect) → Option (HucState × Server × List Effect)
  resting none = none
  resting (some (t, out)) = some (t, at_rest [], out)

  second_arrival :
      (s : HucState) (bytes bytes' : List ℕ) (junk : ℕ) (m : Message)
      (x : Option (HucState × List Effect))
      → waits s bytes ≡ false
      → ((t : HucState) → waits t bytes' ≡ false)
      → handle_stream get_cpu fuel s bytes junk ≡ leaving get_cpu fuel [] x
      → ((t : HucState)
          → handle_stream get_cpu fuel t bytes' m.junk
            ≡ leaving get_cpu fuel [] (deliver get_cpu fuel t m))
      → handle_arrivals s
          (at_rest [])
          (record { bytes = bytes; junk = junk } ∷ record { bytes = bytes'; junk = m.junk } ∷ [])
        ≡ resting (then_all get_cpu fuel (m ∷ []) x)
  unfolding handle_arrivals deliver_all
  second_arrival s bytes bytes' junk m none go go' e later = ground (arith, go, e)
  second_arrival s bytes bytes' junk m (some (t, out)) go go' e later =
      ground (arith, go, go' t, e, later t)

  -- A message whose payload arrives in two pieces, the second after the handler's call for the first, of
  -- at least one byte: if the second piece is the rest of the payload and reads as a whole message
  -- itself, header fields in range, the device takes it for one. It acts on the first message without
  -- that piece, and then on the one that was part of the payload.
  pub late_payload :
      (s : HucState) (h : Header) (first : List ℕ) (junk : ℕ) (m : Message)
      → Fits h
      → IsWhole m
      → 0 < length first
      → length (first ++ header_bytes m.header ++ m.payload) ≡ h.payload_len
      → handle_arrivals s (at_rest []) (
          record { bytes = header_bytes h ++ first; junk = junk }
          ∷ record { bytes = header_bytes m.header ++ m.payload; junk = m.junk }
          ∷ [])
        ≡ resting (
            deliver_all get_cpu fuel s
              (record { header = h; payload = first; junk = junk } ∷ m ∷ []))
  unfolding deliver_all deliver
  late_payload s h first junk m fits q some_byte size =
      let short : length first ≤ h.payload_len = omega (
        arith,
        size,
        length-append (first ++ header_bytes m.header) m.payload,
        length-append first (header_bytes m.header),
      ) in
      let ready : IsReady h first = ground (arith, some_byte) in
      let ready' : IsReady m.header m.payload = ground (arith, q.whole) in
      second_arrival s (header_bytes h ++ first) (header_bytes m.header ++ m.payload) junk m
        (dispatch get_cpu fuel (record s { buf = filled s.buf h first }) h.type junk)
        (waits-header s h first fits ∙ ready)
        (λ t. waits-header t m.header m.payload q.fits ∙ ready')
        (handle_stream-header get_cpu fuel s h first junk fits ready
          ∙ ap
              (λ rest.
                leaving get_cpu fuel rest
                  (dispatch get_cpu fuel (record s { buf = filled s.buf h first }) h.type junk))
              (drop_all h.payload_len first short))
        (λ t.
          ap (λ bs. handle_stream get_cpu fuel t (header_bytes m.header ++ bs) m.junk)
            (sym (append-nil m.payload))
          ∙ handle_stream-deliver get_cpu fuel t m [] q)

  blocks :
      (s : HucState) (bytes : List ℕ) (junk : ℕ) (later : List Arrival)
      → waits s bytes ≡ true
      → handle_arrivals s (at_rest []) (record { bytes = bytes; junk = junk } ∷ later)
        ≡ handle_arrivals s (blocked bytes junk) later
  unfolding handle_arrivals
  blocks s bytes junk later e = ground (arith, e)

  resumes :
      (s : HucState) (h : Header) (junk : ℕ) (a : Arrival) (x : Option (HucState × List Effect))
      → Fits h
      → length a.bytes ≡ h.payload_len
      → handle_acceptfd get_cpu fuel s (header_bytes h) a.bytes junk ≡ x
      → handle_arrivals s (blocked (header_bytes h) junk) (a ∷ []) ≡ resting x
  unfolding handle_arrivals header_bytes
  resumes s h junk a none fits size e = ground (arith, e)
  resumes s h junk a (some (t, out)) fits size e =
      let rest : drop (header_at (recv s.buf 16 4 (header_bytes h)) 16).payload_len a.bytes ≡ [] =
        ap (λ (x : Header). drop x.payload_len a.bytes) (header_at-header_bytes s.buf 16 h fits)
        ∙ drop_all h.payload_len a.bytes (omega (arith, size)) in
      ground (arith, e, rest, append-nil out)

  -- A header, and its payload after it, as from the two sends of a tool: the handler blocks in between,
  -- and then acts on the message as a unit.
  pub split_message :
      (s : HucState) (m : Message) (junk : ℕ)
      → IsWhole m
      → 0 < length m.payload
      → handle_arrivals s (at_rest []) (
          record { bytes = header_bytes m.header; junk = m.junk }
          ∷ record { bytes = m.payload; junk = junk }
          ∷ [])
        ≡ resting (deliver get_cpu fuel s m)
  unfolding deliver
  split_message s m junk q some_byte =
      let nothing : List ℕ = [] in
      let announced : (length nothing == 0 && not (m.header.payload_len == 0)) ≡ true =
        ground (arith, q.whole, some_byte) in
      let a : Arrival = record { bytes = m.payload; junk = junk } in
      blocks s (header_bytes m.header) m.junk (a ∷ []) (
        ap (waits s) (sym (append-nil (header_bytes m.header)))
        ∙ waits-header s m.header [] q.fits
        ∙ announced)
      ∙ resumes s m.header m.junk a _ q.fits q.whole
          (handle_acceptfd-dispatch get_cpu fuel s m.header m.payload m.junk q.fits)
