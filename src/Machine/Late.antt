-- ===== src/Machine/Late.antt =====
-- An interrupt that comes during a fetch.
use huc.Base.{
  ℕ, ◌+◌, ◌-◌, ◌/◌, ◌%◌, ◌^◌, ◌≤◌, ◌<◌, ◌≡◌, refl, ap, ◌∙◌, sym, true, false, some, [], ◌++◌, u32,
  arith,
}
use mathlib.Core.Path.{subst}
use huc.Memory.{store_bytes, load_bytes, load32}
use huc.Memory.Laws.{Bytes, load_bytes-append}
use huc.Msg.{Header, header_at}
use huc.Hucdev.{HucState}
use huc.Hucdev.Cpus.{CpuTable}
use huc.Driver.{Driver, asleep, read, take_word, flag_of_irq, irq_handler}
use huc.Driver.Interrupt.{irq_handler_acks}
use huc.Driver.Window.{read-load_bytes}
use huc.Daemon.Recv.Whole.{header_at-copy}
use huc.Machine.{Machine, waiting, in_payload, interrupt, read_header, read_word, Step}
use huc.Machine.Invariant.{MachineOk}
use huc.Machine.Torn.{read_header-length}

-- With the flag at 2, the driver takes any word for a header.
take_word_header :
    (d : Driver) (word : ℕ)
    → d.flag ≡ 2
    → take_word d word 4 ≡ record { flag = 1; payload_left = word / 65536 % 65536 }
unfolding take_word
take_word_header d word e = ground (arith, e)

-- A word of payload with at most four bytes left ends the message.
take_word_last :
    (k word : ℕ) → k ≤ 4 → (take_word (record { flag = 1; payload_left = k }) word 4).flag ≡ 0
unfolding take_word
take_word_last k word le = ground arith

read_asleep :
    (d : Driver) (dev : HucState) (off : ℕ) → d.flag ≡ 0 → read d dev off 4 false false ≡ asleep
unfolding read
read_asleep d dev off e = ground (arith, e)

-- A hang. The driver is about to hand over a message of more than eight bytes whose third and fourth
-- byte of payload, as a number, are at most 4, and the interrupt of another one is pending. It can be
-- served between the daemon's reads of the header and of the payload. The next read then takes the
-- payload's first word for a header: the driver has that number for the length of a payload, and the
-- read behind it puts the driver to sleep. The daemon's next read sleeps, with the payload beyond eight
-- bytes missing and no interrupt pending.
pub late_interrupt :
    (get_cpu : CpuTable) (fuel : ℕ) (s : Machine)
    → MachineOk s
    → s.daemon ≡ waiting
    → s.driver.flag ≡ 2
    → s.dev.irq_line ≡ true
    → s.dev.irq_status ≡ 1
    → 8 < (header_at s.dev.buf 16).payload_len
    → load32 s.dev.buf 20 / 65536 % 65536 ≤ 4
    → (r t u w : Machine) × Step get_cpu fuel s r
      × (r.daemon ≡ in_payload (header_at s.dev.buf 16) (header_at s.dev.buf 16).payload_len [] 20)
      × Step get_cpu fuel r t
      × (irq_handler get_cpu fuel r.driver r.dev true ≡ some ((true, t.driver), t.dev, []))
      × (t.daemon ≡ r.daemon)
      × Step get_cpu fuel t u
      × (u.driver ≡ record { flag = 1; payload_left = load32 s.dev.buf 20 / 65536 % 65536 })
      × Step get_cpu fuel u w
      × (w.daemon
          ≡ in_payload
              (header_at s.dev.buf 16)
              ((header_at s.dev.buf 16).payload_len - 8)
              (load_bytes s.dev.buf 20 8)
              28)
      × (read w.driver w.dev 28 4 false false ≡ asleep)
      × (w.dev.irq_line ≡ false)
late_interrupt get_cpu fuel s q at awake line status lt short =
    let hd : Header = header_at (store_bytes (λ a. 0) 0 (load_bytes s.dev.buf 16 4)) 0 in
    let head : hd ≡ header_at s.dev.buf 16 = header_at-copy (λ a. 0) s.dev.buf in
    let len : hd.payload_len ≡ (header_at s.dev.buf 16).payload_len =
      ap (λ (x : Header). x.payload_len) head in
    let left : ℕ = ((hd.payload_len + 2 ^ 32 - u32 4) % 2 ^ 32 + 2 ^ 32 - u32 4) % 2 ^ 32 in
    let d1 : Driver = record { flag = 1; payload_left = (header_at s.dev.buf 16).payload_len } in
    let d2 : Driver = record d1 { flag = flag_of_irq s.dev.irq_status d1.flag } in
    let (dev, acks, _, low, same) = irq_handler_acks get_cpu fuel d1 s.dev q.irq in
    let bytes : Bytes dev.buf = subst Bytes (sym same) q.bytes in
    let two : d2.flag ≡ 2 = ap (λ x. flag_of_irq x 1) status in
    let first =
      read-load_bytes d2 dev 20 bytes (omega arith) (omega arith) (omega arith)
        (omega (arith, two)) in
    let d3 : Driver = take_word d2 (load32 dev.buf 20) 4 in
    let third : d3 ≡ record { flag = 1; payload_left = load32 s.dev.buf 20 / 65536 % 65536 } =
      take_word_header d2 (load32 dev.buf 20) two
      ∙ ap (λ b. record { flag = 1; payload_left = load32 b 20 / 65536 % 65536 }) same in
    let second =
      read-load_bytes d3 dev 24 bytes (omega arith) (omega arith) (omega arith)
        (omega (arith, ap (λ (d : Driver). d.flag) third)) in
    let left1 : ℕ = (hd.payload_len + 2 ^ 32 - u32 4) % 2 ^ 32 in
    let r : Machine = record s {
      driver = d1;
      daemon = in_payload hd hd.payload_len [] 20;
      arrived = false;
    } in
    let t : Machine = record r { dev = dev; driver = d2 } in
    let u : Machine = record t {
      driver = d3;
      daemon = in_payload hd left1 ([] ++ load_bytes dev.buf 20 4) 24;
    } in
    (
      r,
      t,
      u,
      record u {
        driver = take_word d3 (load32 dev.buf 24) 4;
        daemon = in_payload hd left (([] ++ load_bytes dev.buf 20 4) ++ load_bytes dev.buf 24 4) 28;
      },
      read_header (λ a. 0) 4 (load_bytes s.dev.buf 16 4) d1 20 at
          (read_header-length s.driver s.dev q.bytes awake),
      ap (λ (x : Header). in_payload x x.payload_len [] 20) head,
      interrupt d2 dev [] line acks,
      acks,
      refl,
      read_word hd hd.payload_len [] 20 4 (load_bytes dev.buf 20 4) d3 24 refl
          (ground (arith, len, q.fits)) first,
      third,
      read_word hd left1 ([] ++ load_bytes dev.buf 20 4) 24 4 (load_bytes dev.buf 24 4) _ 28 refl
          (ground (arith, len, q.fits)) second,
      ap (λ x. in_payload x left (load_bytes dev.buf 20 4 ++ load_bytes dev.buf 24 4) 28) head
          ∙ ap
              (λ l.
                in_payload (header_at s.dev.buf 16) l
                  (load_bytes dev.buf 20 4 ++ load_bytes dev.buf 24 4) 28)
              {x = left} (omega (arith, len, lt, q.fits))
          ∙ ap
              (λ w.
                in_payload (header_at s.dev.buf 16) ((header_at s.dev.buf 16).payload_len - 8) w 28)
              (sym (load_bytes-append dev.buf 20 4 4) ∙ ap (λ b. load_bytes b 20 8) same),
      read_asleep (take_word d3 (load32 dev.buf 24) 4) dev 28 (
          ap (λ (d : Driver). (take_word d (load32 dev.buf 24) 4).flag) third
          ∙ take_word_last (load32 s.dev.buf 20 / 65536 % 65536) (load32 dev.buf 24) short),
      low,
    )
