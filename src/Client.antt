-- ===== src/Client.antt =====
-- The host's command line tools: hostend/injectByteCode.c, hostend/injectProgram.c, hostend/reset.c and
-- hostend/pinonsame.c. Each connects to the device's server and sends messages.
pub mod Send
pub mod Pin
use huc.Base.{
  ℕ, ◌+◌, ◌*◌, ◌/◌, ◌%◌, Bool, true, false, Option, none, some, List, [], ◌∷◌, ◌++◌, ◌==◌,
  if◌then◌else◌, leb, take, not,
}
use huc.Msg.{
  Header, header_bytes, Message, Payload, uninit, null, freed, held, HostFile, prepare_huc_message,
  prepare_bpf_injection_message, default_version, reset, pin_on_same,
}

-- What one `send` puts on the wire: bytes, or `n` bytes of memory that the tool does not own.
pub data Chunk : Type 0 where
  bytes : List ℕ → Chunk
  dangling : ℕ → Chunk

-- How a tool ends: EXIT_SUCCESS, EXIT_FAILURE or -1, or a `free` of a pointer that is not allocated.
pub data Exit : Type 0 where
  success : Exit
  failure : Exit
  bad_free : Exit

-- What a tool sends, in order, and how it ends.
abbrev pub Outcome : Type 0
Outcome = List Chunk × Exit

-- `PORT` of injectByteCode.c, and of injectProgram.c, reset.c and pinonsame.c.
abbrev pub byte_code_port : ℕ
byte_code_port = 8888

abbrev pub tool_port : ℕ
tool_port = 9999

-- How `socket`, `gethostbyname` and, for each port of the host, `connect` turn out.
pub record Net : Type 0 where
  pub socket : Bool
  pub host : Bool
  pub connect : ℕ → Bool

-- `send(sock, payload, n, 0)`; from a null pointer nothing is sent.
unfoldable pub payload_chunk : Payload → ℕ → Chunk
payload_chunk (held bs) n = bytes (take n bs)
payload_chunk null n = bytes []
payload_chunk freed n = dangling n
payload_chunk uninit n = dangling n

-- `free(payload)`
unfoldable pub free_payload : Payload → Exit
free_payload (held bs) = success
free_payload null = success
free_payload freed = bad_free
free_payload uninit = bad_free

-- `send_bpf_injection_message(sock, mymsg)`: the header, then the payload.
unfoldable pub send_message : Message → List Chunk
unfolding payload_chunk
send_message m = bytes (header_bytes m.header) ∷ payload_chunk m.payload m.header.payload_len ∷ []

-- The calls of `socket`, `init_sockaddr` and `connect`, each of which ends the tool if it fails.
abbrev pub connected : Net → ℕ → Outcome → Outcome
connected net port rest =
    if net.socket
    then if net.host then if net.connect port then rest else ([], failure) else ([], failure)
    else ([], failure)

-- `main` of injectByteCode.c. The file is the one that `argv[1]` names.
unfoldable pub inject_byte_code : ℕ → Option HostFile → Bool → ℕ → Net → Outcome
unfolding send_message free_payload
inject_byte_code argc file memory stale net =
    let m = prepare_huc_message file memory stale in
    if leb argc 1
    then ([], success)
    else connected net byte_code_port (send_message m, free_payload m.payload)

-- `main` of injectProgram.c
unfoldable pub inject_program : Option HostFile → ℕ → Net → Outcome
unfolding send_message free_payload
inject_program file stale net =
    let m = prepare_bpf_injection_message file stale in
    connected net tool_port (send_message m, free_payload m.payload)

-- A message of one `uint32_t` whose bytes are all `b`.
abbrev pub word_message : ℕ → ℕ → Message
word_message type b = record {
  header = record { version = default_version; type = type; payload_len = 4 };
  payload = held (b ∷ b ∷ b ∷ b ∷ []);
}

-- `main` of reset.c
unfoldable pub reset_main : Net → Outcome
unfolding send_message free_payload
reset_main net = connected net tool_port (send_message (word_message reset 7), success)

abbrev pub one_second_in_nanosecond : ℕ
one_second_in_nanosecond = 1_000_000_000

-- `struct timespec`
pub record Timespec : Type 0 where
  pub tv_sec : ℕ
  pub tv_nsec : ℕ

-- How long pinonsame.c keeps the vCPUs on one CPU.
unfoldable pub serial_time : ℕ → ℕ → Timespec
serial_time percentage duration =
    let serial = one_second_in_nanosecond * duration * percentage / 100 in
    record {
      tv_sec = serial / one_second_in_nanosecond;
      tv_nsec = serial % one_second_in_nanosecond;
    }

-- `main` of pinonsame.c. A percentage of 0 stands for every number that is not positive; `slept` says
-- whether `nanosleep` comes to its end.
unfoldable pub pin_on_same_main : ℕ → ℕ → Bool → Net → Outcome
unfolding send_message
pin_on_same_main argc percentage slept net =
    let pin = send_message (word_message pin_on_same 0) in
    let unpin = send_message (word_message reset 7) in
    if argc == 3
    then if percentage == 0
      then ([], success)
      else connected net tool_port (if slept then (pin ++ unpin, success) else (pin, failure))
    else ([], failure)
