-- ===== src/Machine/Fetch.antt =====
-- `recv_bytecode` as a function is one of the ways in which the steps can go: the undisturbed one.
use huc.Base.{
  ℕ, zero, suc, ◌+◌, ◌-◌, ◌%◌, ◌^◌, ◌≡◌, refl, Bool, Bool-cases, ◌⊎◌, inl, inr, false, some, none,
  List, [], ◌++◌, u32, arith,
}
use mathlib.Core.Path.{subst}
use huc.Memory.{Memory, store_bytes}
use huc.Msg.{Header, header_at, header_size}
use huc.Hucdev.{HucState}
use huc.Hucdev.Cpus.{CpuTable}
use huc.Driver.{Driver, ReadResult, asleep, read, returned, not_positive}
use huc.Daemon.Recv.{Calls, received, recv_bytecode, recv_rest, recv_payload}
use huc.Daemon.Recv.Loop.{Calm}
use huc.Machine.{
  waiting, in_payload, fetched, Machine, read_header, read_word, finish, Reach, here, next,
}

-- How a call of `read` ends.
read_cases :
    (r : ReadResult)
    → (r ≡ asleep)
      ⊎ (((bytes : List ℕ) × (d : Driver) × (off : ℕ) × (r ≡ returned none bytes d off))
          ⊎ ((len : ℕ) × (bytes : List ℕ) × (d : Driver) × (off : ℕ) × (r
                ≡ returned (some len) bytes d off)))
read_cases asleep = inl refl
read_cases (returned none bytes d off) = inr (inl (bytes, d, off, refl))
read_cases (returned (some len) bytes d off) = inr (inr (len, bytes, d, off, refl))

module _ {get_cpu : CpuTable} {fuel : ℕ} where
  pub Reach-trans :
      {s t u : Machine} → Reach get_cpu fuel s t → Reach get_cpu fuel t u → Reach get_cpu fuel s u
  Reach-trans r here = r
  Reach-trans r (next r' st) = next (Reach-trans r r') st

module _ (get_cpu : CpuTable) (fuel : ℕ) {c : Calls} (calm : Calm c) (dev : HucState)
    (a : Bool) where
  -- The machine while the daemon is in its loop, and afterwards.
  abbrev looping : Header → ℕ → List ℕ → Driver → ℕ → Machine
  looping h left written d off = record {
    dev = dev;
    driver = d;
    daemon = in_payload h left written off;
    arrived = a;
  }

  abbrev done : Header → List ℕ → Driver → Machine
  done h written d = record { dev = dev; driver = d; daemon = fetched h written; arrived = a }

  pub recv_payload-Reach :
      (rounds left : ℕ) (h : Header) (written : List ℕ) (d : Driver) (off : ℕ) (h' : Header)
      (w : List ℕ) (d' : Driver) (off' : ℕ)
      → recv_payload c dev h rounds left written d off ≡ received h' w d' off'
      → Reach get_cpu fuel (looping h left written d off) (done h' w d')
  unfolding recv_payload
  recv_payload-Reach zero left h written d off h' w d' off' e = absurd (cc (e))
  recv_payload-Reach (suc rounds) left h written d off h' w d' off' e =
      elim (Bool-cases (not_positive left)) [
        | inl over ↦
            let is : received h written d off ≡ received h' w d' off' = ground (arith, e, over) in
            let same : done h written d ≡ done h' w d' = cc (is) in
            subst (Reach get_cpu fuel (looping h left written d off)) same
              (next here (finish h left written off refl over))
        | inr more ↦ elim (read_cases (read d dev off 4 false false)) [
          | inl sleeps ↦
              absurd (ground (arith, e, more, sleeps, calm.undisturbed off, calm.mapped off))
          | inr (inl (bytes, d2, off2, fails)) ↦
              absurd (ground (arith, e, more, fails, calm.undisturbed off, calm.mapped off))
          | inr (inr (len, bytes, d2, off2, is)) ↦
              let rest : recv_payload c dev h rounds ((left + 2 ^ 32 - u32 len) % 2 ^ 32)
                    (written ++ bytes) d2 off2
                  ≡ received h' w d' off' =
                ground (arith, e, more, is, calm.undisturbed off, calm.mapped off) in
              Reach-trans (next here (read_word h left written off len bytes d2 off2 refl more is))
                (recv_payload-Reach rounds ((left + 2 ^ 32 - u32 len) % 2 ^ 32) h (written ++ bytes)
                  d2 off2 h' w d' off' rest)
        ]
      ]

module _ (get_cpu : CpuTable) (fuel : ℕ) {c : Calls} (calm : Calm c) (dev : HucState) where
  -- A fetch by `recv_bytecode` that ends with a message, its calls undisturbed, is a run of the machine.
  pub recv_bytecode-Reach :
      (a : Bool) (rounds : ℕ) (stale : Memory) (d : Driver) (off : ℕ) (h : Header) (w : List ℕ)
      (d' : Driver) (off' : ℕ)
      → recv_bytecode c dev rounds stale d off ≡ received h w d' off'
      → Reach get_cpu fuel
          (record { dev = dev; driver = d; daemon = waiting; arrived = a })
          (record { dev = dev; driver = d'; daemon = fetched h w; arrived = false })
  unfolding recv_bytecode recv_rest
  recv_bytecode-Reach a rounds stale d off h w d' off' e =
      elim (read_cases (read d dev 16 header_size false false)) [
        | inl sleeps ↦
            absurd
              (ground (arith, e, sleeps, calm.seeks_header, calm.undisturbed 16, calm.mapped 16))
        | inr (inl (bytes, d2, off2, fails)) ↦
            absurd
              (ground (arith, e, fails, calm.seeks_header, calm.undisturbed 16, calm.mapped 16))
        | inr (inr (len, bytes, d2, off2, is)) ↦
            let head : Header = header_at (store_bytes stale 0 bytes) 0 in
            let rest : recv_payload c dev head rounds head.payload_len [] d2 20
                ≡ received h w d' off' =
              ground (
                arith,
                e,
                is,
                calm.seeks_header,
                calm.undisturbed 16,
                calm.mapped 16,
                calm.mallocs,
                calm.seeks_payload,
              ) in
            Reach-trans (next here (read_header stale len bytes d2 off2 refl is)) (
              recv_payload-Reach get_cpu fuel calm dev false rounds head.payload_len head [] d2 20 h
                w d' off' rest)
      ]
