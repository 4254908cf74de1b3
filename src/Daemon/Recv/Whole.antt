-- ===== src/Daemon/Recv/Whole.antt =====
-- A whole fetch: header and payload as they lie in the device's buffer.
use huc.Base.{
  ℕ, suc, ◌+◌, ◌-◌, ◌/◌, ◌%◌, ◌^◌, ◌≤◌, ◌<◌, ◌≡◌, ◌≢◌, ◌↔◌, refl, ◌∙◌, List, [], arith, length,
}
use huc.Memory.{Memory, load_bytes, load32, store_bytes}
use huc.Memory.Laws.{Bytes, length-load_bytes}
use huc.Msg.{Header, header_at}
use huc.Hucdev.{HucState}
use huc.Driver.{Driver, take_word, consume}
use huc.Driver.Window.{read-load_bytes}
use huc.Daemon.Recv.{Calls, received, recv_bytecode, recv_rest, recv_payload}
use huc.Daemon.Recv.Loop.{Calm, round_up, recv_payload-fetched}

pub header_at-copy :
    (stale m : Memory) → header_at (store_bytes stale 0 (load_bytes m 16 4)) 0 ≡ header_at m 16
unfolding header_at store_bytes load_bytes
header_at-copy stale m = ground arith

-- The driver's own reading of the length agrees with the header's.
pub word_len : (m : Memory) → Bytes m → load32 m 16 / 65536 % 65536 ≡ (header_at m 16).payload_len
unfolding load32 header_at
word_len m h = omega (arith, h 16, h 17, h 18, h 19)

module _ {c : Calls} (calm : Calm c) (dev : HucState) (bytes : Bytes dev.buf) where
  abbrev header : Header
  header = header_at dev.buf 16

  -- The header's read wakes the daemon, and tells the driver the length.
  recv_bytecode-recv_rest :
      (fuel : ℕ) (stale : Memory) (d : Driver) (off : ℕ)
      → d.flag ≢ 0
      → recv_bytecode c dev fuel stale d off
        ≡ recv_rest c dev fuel header (take_word d (load32 dev.buf 16) 4) 20
  unfolding recv_bytecode
  recv_bytecode-recv_rest fuel stale d off awake = ground (
    arith,
    calm.seeks_header,
    calm.undisturbed 16,
    calm.mapped 16,
    read-load_bytes d dev 16 bytes (omega arith) (omega arith) (omega arith) awake,
    header_at-copy stale dev.buf,
  )

  -- A fetch whose calls succeed, with a driver that has a message to hand over, whose payload is not
  -- empty and ends in the window: the daemon gets the header, the payload rounded up to whole words, and leaves the
  -- driver with nothing to read.
  pub recv_bytecode-received :
      (fuel : ℕ) (stale : Memory) (d : Driver) (off : ℕ)
      → d.flag ≡ 2
      → 0 < header.payload_len
      → header.payload_len ≤ 65516
      → header.payload_len < fuel
      → (d' : Driver) × (off' : ℕ) × (recv_bytecode c dev fuel stale d off
          ≡ received header (load_bytes dev.buf 20 (round_up header.payload_len)) d' off')
        × (d'.flag ≡ 0)
  unfolding recv_rest take_word
  recv_bytecode-received fuel stale d off awake pos fits enough = (
    record {
      flag = 0;
      payload_left = (header.payload_len + 2 ^ 32 - round_up header.payload_len) % 2 ^ 32;
    },
    20 + round_up header.payload_len,
    recv_bytecode-recv_rest fuel stale d off (omega arith)
        ∙ ground (
          arith,
          calm.mallocs,
          calm.seeks_payload,
          word_len dev.buf bytes,
          recv_payload-fetched calm dev bytes header fuel header.payload_len [] 20 pos (omega arith)
              (omega arith) (omega arith) enough,
        ),
    refl,
  )

  -- A message with an empty payload is fetched twice, when all calls succeed: after the first fetch the driver is still
  -- awake, and the next fetch does not wait but gets the same header again.
  recv_bytecode_empty :
      (fuel : ℕ) (stale : Memory) (d : Driver) (off : ℕ)
      → d.flag ≡ 2
      → header.payload_len ≡ 0
      → (d' d'' : Driver) × (recv_bytecode c dev (suc fuel) stale d off ≡ received header [] d' 20)
        × (d'.flag ≡ 1)
        × (recv_bytecode c dev (suc fuel) stale d' 20 ≡ received header [] d'' 20)
        × (d''.flag ≡ 0)
  unfolding recv_rest take_word recv_payload consume
  recv_bytecode_empty fuel stale d off awake empty = (
    record { flag = 1; payload_left = 0 },
    record { flag = 0; payload_left = 2 ^ 32 - 4 },
    recv_bytecode-recv_rest (suc fuel) stale d off (omega arith)
        ∙ ground (arith, calm.mallocs, calm.seeks_payload, word_len dev.buf bytes),
    refl,
    recv_bytecode-recv_rest (suc fuel) stale (record { flag = 1; payload_left = 0 }) 20
          (omega arith)
        ∙ ground (arith, calm.mallocs, calm.seeks_payload),
    refl,
  )

  -- A fetch whose calls succeed, with a driver that has a message to hand over, whose payload is not
  -- empty and ends in the window: it ends, and the bytes that it writes behind the pointer are the
  -- payload's length rounded up to four. They run past the allocation of `malloc(payload_len)` exactly
  -- if the length is no multiple of 4.
  pub recv_bytecode-overrun :
      (fuel : ℕ) (stale : Memory) (d : Driver) (off : ℕ)
      → d.flag ≡ 2
      → 0 < header.payload_len
      → header.payload_len ≤ 65516
      → header.payload_len < fuel
      → (written : List ℕ) × (d' : Driver) × (off' : ℕ) × (recv_bytecode c dev fuel stale d off
          ≡ received header written d' off')
        × (length written ≡ round_up header.payload_len)
        × ((header.payload_len < length written) ↔ (header.payload_len % 4 ≢ 0))
  recv_bytecode-overrun fuel stale d off awake pos fits enough =
      let (d', off', e, _) = recv_bytecode-received fuel stale d off awake pos fits enough in
      let written = load_bytes dev.buf 20 (round_up header.payload_len) in
      let size : length written ≡ round_up header.payload_len =
        length-load_bytes dev.buf 20 (round_up header.payload_len) in
      (written, d', off', e, size, (λ lt. omega (arith, size), λ ne. omega (arith, size)))
