-- ===== src/Client/Send.antt =====
-- What the injection tools put on the wire.
use huc.Base.{
  ℕ, ◌^◌, ◌≤◌, ◌<◌, ◌≡◌, refl, ap, ◌∙◌, true, some, [], ◌∷◌, arith, take, length, u16, take_of_le,
  length-take, min, take-take,
}
use huc.Msg.{
  Header, header_bytes, HostFile, fread, default_version, program_injection, error,
  prepare_huc_message, held, freed,
}
use huc.Msg.Laws.{Fits}
use huc.Client.{bytes, dangling, success, bad_free, Net, byte_code_port, inject_byte_code}

-- Socket, host and a connection to the port are there.
pub record Online (net : Net) (port : ℕ) : Type 0 where
  pub has_socket : net.socket ≡ true
  pub has_host : net.host ≡ true
  pub has_connection : net.connect port ≡ true

-- The header that a file of `size` bytes gets.
abbrev pub header_of_size : ℕ → Header
header_of_size size = record {
  version = default_version;
  type = program_injection;
  payload_len = u16 size;
}

header_of_size-Fits : (size : ℕ) → Fits (header_of_size size)
header_of_size-Fits size = omega arith

-- How much `fread` gets of a file that can be read as far as it is announced.
fread_whole :
    (f : HostFile)
    → u16 (length f.contents) ≤ f.readable
    → (fread f (u16 (length f.contents)) ≡ take (u16 (length f.contents)) f.contents)
      × (length (fread f (u16 (length f.contents))) ≡ u16 (length f.contents))
fread_whole f h = (
  ap (λ n. take n f.contents) (omega arith),
  omega (arith, length-take (min (u16 (length f.contents)) f.readable) f.contents),
)

prepared :
    (f : HostFile) (stale : ℕ)
    → u16 (length f.contents) ≤ f.readable
    → prepare_huc_message (some f) true stale ≡ record {
      header = header_of_size (length f.contents);
      payload = held (take (u16 (length f.contents)) f.contents);
    }
unfolding prepare_huc_message
prepared f stale h = ground (arith, fread_whole f h)

-- `injectByteCode <file>`, online, with memory and a file that can be read: two sends, the header
-- with the file's size modulo 2^16, then that many bytes from the front of the file; what a file has
-- beyond is dropped.
inject_byte_code-sends :
    (f : HostFile) (stale argc : ℕ) (net : Net)
    → 2 ≤ argc
    → Online net byte_code_port
    → u16 (length f.contents) ≤ f.readable
    → inject_byte_code argc (some f) true stale net ≡ (
      bytes (header_bytes (header_of_size (length f.contents)))
          ∷ bytes (take (u16 (length f.contents)) f.contents)
          ∷ [],
      success,
    )
unfolding inject_byte_code
inject_byte_code-sends f stale argc net args on h = ground (
  arith,
  prepared f stale h,
  on.has_socket,
  on.has_host,
  on.has_connection,
  take-take (u16 (length f.contents)) f.contents,
)

-- A file below 64 KiB is sent whole, under a header that fits its fields and has its length.
pub inject_byte_code-sends_whole :
    (f : HostFile) (stale argc : ℕ) (net : Net)
    → 2 ≤ argc
    → Online net byte_code_port
    → length f.contents ≤ f.readable
    → length f.contents < 2 ^ 16
    → (h : Header) × (inject_byte_code argc (some f) true stale net
        ≡ (bytes (header_bytes h) ∷ bytes f.contents ∷ [], success))
      × Fits h
      × (h.type ≡ program_injection)
      × (h.payload_len ≡ length f.contents)
inject_byte_code-sends_whole f stale argc net args on readable small = (
  header_of_size (length f.contents),
  inject_byte_code-sends f stale argc net args on (omega arith)
      ∙ ap
          (λ t. (bytes (header_bytes (header_of_size (length f.contents))) ∷ bytes t ∷ [], success))
          (take_of_le (u16 (length f.contents)) f.contents (omega arith)),
  header_of_size-Fits (length f.contents),
  refl,
  omega arith,
)

failed_read :
    (f : HostFile) (stale : ℕ)
    → f.readable < u16 (length f.contents)
    → prepare_huc_message (some f) true stale ≡ record {
      header = record {
        version = default_version;
        type = error;
        payload_len = u16 (length f.contents);
      };
      payload = freed;
    }
unfolding prepare_huc_message
failed_read f stale h =
    ground (arith, length-take (min (u16 (length f.contents)) f.readable) f.contents)

-- If the file cannot be read as far as announced, the tool sends the header of type ERROR, then as
-- many bytes of memory that it has already freed, and frees that memory a second time.
inject_byte_code-failed_read :
    (f : HostFile) (stale argc : ℕ) (net : Net)
    → 2 ≤ argc
    → Online net byte_code_port
    → f.readable < u16 (length f.contents)
    → inject_byte_code argc (some f) true stale net ≡ (
      bytes (
            header_bytes (record {
              version = default_version;
              type = error;
              payload_len = u16 (length f.contents);
            }))
          ∷ dangling (u16 (length f.contents))
          ∷ [],
      bad_free,
    )
unfolding inject_byte_code
inject_byte_code-failed_read f stale argc net args on h =
    ground (arith, failed_read f stale h, on.has_socket, on.has_host, on.has_connection)
