-- ===== src/Msg.antt =====
-- The message of qemu-patch/huc_msg.h, hostend/huc_msg.h and the three bpf_injection_msg.h: the
-- type numbers, the 4-byte header, its layout in memory, and how a host tool fills it from a file.
pub mod Laws
use huc.Base.{
  ℕ, ◌+◌, ◌*◌, ◌/◌, ◌%◌, Bool, true, false, Option, none, some, List, [], ◌∷◌, ◌==◌, if◌then◌else◌,
  u16, min, take, length,
}
use huc.Memory.{Memory}

abbrev pub program_injection : ℕ
program_injection = 1

abbrev pub program_injection_result : ℕ
program_injection_result = 2

abbrev pub program_injection_affinity : ℕ
program_injection_affinity = 3

abbrev pub error : ℕ
error = 16

abbrev pub reset : ℕ
reset = 17

abbrev pub pin_on_same : ℕ
pin_on_same = 18

abbrev pub ht_remapping : ℕ
ht_remapping = 19

abbrev pub default_version : ℕ
default_version = 1

-- `struct huc_msg_header`: two `uint8_t` and a `uint16_t`.
pub record Header : Type 0 where
  pub version : ℕ
  pub type : ℕ
  pub payload_len : ℕ

-- `sizeof(struct huc_msg_header)`
abbrev pub header_size : ℕ
header_size = 4

-- The bytes that `send(sock, &mymsg.header, sizeof header)` puts on the wire.
unfoldable pub header_bytes : Header → List ℕ
header_bytes h =
    (h.version % 256) ∷ (h.type % 256) ∷ (h.payload_len % 256) ∷ (h.payload_len / 256 % 256) ∷ []

-- `*(struct huc_msg_header *)(m + a)`
unfoldable pub header_at : Memory → ℕ → Header
header_at m a = record {
  version = m a;
  type = m (a + 1);
  payload_len = m (a + 2) + 256 * m (a + 3);
}

-- What the pointer `payload` of a message stands for. `uninit` is a pointer never assigned.
pub data Payload : Type 0 where
  uninit : Payload
  null : Payload
  freed : Payload
  held : List ℕ → Payload

-- `struct huc_msg_t`. A header field that was never assigned keeps the value it is given.
pub record Message : Type 0 where
  pub header : Header
  pub payload : Payload

-- A file as the host tools see it: its contents, and how many bytes `fread` delivers before it
-- fails.
pub record HostFile : Type 0 where
  pub contents : List ℕ
  pub readable : ℕ

-- `fread(buf, 1, n, fp)` from the start of the file.
abbrev pub fread : HostFile → ℕ → List ℕ
fread f n = take (min n f.readable) f.contents

-- The part of `prepare_huc_message` under `if (fp)`. `memory` says whether `malloc` succeeds.
read_payload : HostFile → Bool → Header → Message
read_payload f memory h =
    let sized : Header = record h { payload_len = u16 (length f.contents) } in
    let got = fread f (u16 (length f.contents)) in
    if memory
    then if length got == u16 (length f.contents)
      then record { header = sized; payload = held got }
      else record { header = record sized { type = error }; payload = freed }
    else record { header = sized; payload = null }

-- `prepare_huc_message(bytecode)`. `none` is a file that `fopen` cannot open; `stale` is what the
-- uninitialised `payload_len` holds.
unfoldable pub prepare_huc_message : Option HostFile → Bool → ℕ → Message
unfolding read_payload
prepare_huc_message file memory stale =
    let fresh : Header = record {
      version = default_version;
      type = program_injection;
      payload_len = stale;
    } in
    elim file [
      | none ↦ record { header = fresh; payload = uninit }
      | some f ↦ read_payload f memory fresh
    ]

-- The same part of `prepare_bpf_injection_message`, which does not look at what `malloc` returns. Only
-- a `malloc` that succeeds is modelled: else `fread` writes through a null pointer.
read_payload_unchecked : HostFile → Header → Message
read_payload_unchecked f h =
    let sized : Header = record h { payload_len = u16 (length f.contents) } in
    let got = fread f (u16 (length f.contents)) in
    if length got == u16 (length f.contents)
    then record { header = sized; payload = held got }
    else record { header = record sized { type = error }; payload = freed }

-- `prepare_bpf_injection_message(path)`
unfoldable pub prepare_bpf_injection_message : Option HostFile → ℕ → Message
unfolding read_payload_unchecked
prepare_bpf_injection_message file stale =
    let fresh : Header = record {
      version = default_version;
      type = program_injection;
      payload_len = stale;
    } in
    elim file [
      | none ↦ record { header = fresh; payload = uninit }
      | some f ↦ read_payload_unchecked f fresh
    ]
