-- ===== src/Hucdev/Server/Watch.antt =====
-- Which descriptors the main loop watches: the server serves one client at a time.
use huc.Base.{
  ℕ, ◌^◌, ◌<◌, ◌≡◌, ◌≢◌, ◌⊎◌, inl, inr, refl, ◌∙◌, some, List, [], ◌∷◌, arith, if◌then◌else◌, ◌==◌,
  true, false,
}
use mathlib.Core.Path.{subst}
use huc.Hucdev.{Fd, no_fd, HucState, Effect, unwatched, listenfd, acceptfd, raise_irq}
use huc.Hucdev.Cpus.{CpuTable}
use huc.Hucdev.Server.{
  set_fd_handler, make_socket, handle_listenfd, handle_acceptfd, close_connection, dispatch, Setup,
  realize,
}

-- The server waits for a client on `l`.
pub record Listening (l : Fd) (s : HucState) : Type 0 where
  pub on : s.listen_fd ≡ l
  pub apart : s.connect_fd ≡ no_fd
  pub watch : (fd : Fd) → s.handlers fd ≡ (if l == fd then listenfd else unwatched)

-- The server serves the client on `c`.
pub record Connected (l c : Fd) (s : HucState) : Type 0 where
  pub on : s.listen_fd ≡ l
  pub client : s.connect_fd ≡ c
  pub alive : c < 2 ^ 31
  pub apart : l ≢ c
  pub watch : (fd : Fd) → s.handlers fd ≡ (if c == fd then acceptfd else unwatched)

-- The server works: it waits for a client or serves one.
abbrev pub Serving : Fd → HucState → Type 0
Serving l s = Listening l s ⊎ ((c : Fd) × Connected l c s)

module _ (get_cpu : CpuTable) (fuel : ℕ) where
  -- A round of the main loop: it calls the handler of a watched descriptor. A new client gets a
  -- descriptor that is open and not the listening one.
  pub data Step (s : HucState) : HucState → Type 0 where
    accept :
        (c : Fd)
        → s.handlers s.listen_fd ≡ listenfd
        → c < 2 ^ 31
        → s.listen_fd ≢ c
        → Step s (handle_listenfd s c)
    message :
        (first second : List ℕ) (junk : ℕ) {t : HucState} {out : List Effect}
        → s.handlers s.connect_fd ≡ acceptfd
        → handle_acceptfd get_cpu fuel s first second junk ≡ some (t, out)
        → Step s t

  pub data Reach (s : HucState) : HucState → Type 0 where
    here : Reach s s
    next : {t u : HucState} → Reach s t → Step t u → Reach s u

  -- What a message leaves alone.
  pub record SameSockets (s t : HucState) : Type 0 where
    pub listen_kept : t.listen_fd ≡ s.listen_fd
    pub connect_kept : t.connect_fd ≡ s.connect_fd
    pub handlers_kept : (fd : Fd) → t.handlers fd ≡ s.handlers fd

  raise_irq-SameSockets : (s : HucState) (v : ℕ) → SameSockets s (raise_irq s v)
  unfolding raise_irq
  raise_irq-SameSockets s v = ground arith

  dispatch-SameSockets :
      (s : HucState) (type junk : ℕ) {t : HucState} {out : List Effect}
      → dispatch get_cpu fuel s type junk ≡ some (t, out)
      → SameSockets s t
  unfolding dispatch raise_irq
  dispatch-SameSockets s type junk e = ground arith

  accept-Connected :
      {s : HucState} (l c : Fd)
      → c < 2 ^ 31
      → s.listen_fd ≢ c
      → Listening l s
      → Connected l c (handle_listenfd s c)
  unfolding handle_listenfd
  accept-Connected {s} l c alive ne q = record {
    on = q.on;
    client = refl;
    alive = alive;
    apart = λ e. ne (q.on ∙ e);
    watch = λ fd. ground (arith, q.watch fd);
  }

  close-Listening : {s : HucState} (l c : Fd) → Connected l c s → Listening l (close_connection s)
  unfolding close_connection
  close-Listening {s} l c q = record {
    on = q.on;
    apart = refl;
    watch = λ fd. ground (arith, q.watch fd);
  }

  pub same-Connected :
      {s t : HucState} (l c : Fd) → SameSockets s t → Connected l c s → Connected l c t
  same-Connected l c k q = record {
    on = k.listen_kept ∙ q.on;
    client = k.connect_kept ∙ q.client;
    alive = q.alive;
    apart = q.apart;
    watch = λ fd. k.handlers_kept fd ∙ q.watch fd;
  }

  message-Serving :
      (s : HucState) (l c : Fd) (first second : List ℕ) (junk : ℕ) {t : HucState}
      {out : List Effect}
      → handle_acceptfd get_cpu fuel s first second junk ≡ some (t, out)
      → Connected l c s
      → Serving l t
  unfolding handle_acceptfd
  message-Serving s l c [] second junk {t} e q =
      let same : close_connection s ≡ t = ground arith in
      inl (subst (Listening l) same (close-Listening l c q))
  message-Serving s l c (b ∷ first) second junk e q =
      inr (c, same-Connected l c (kept (dispatch-SameSockets _ _ junk e)) q)
    where
      kept : {m : ℕ → ℕ} {t : HucState} → SameSockets (record s { buf = m }) t → SameSockets s t
      kept k = record {
        listen_kept = k.listen_kept;
        connect_kept = k.connect_kept;
        handlers_kept = k.handlers_kept;
      }

  -- One client at a time: a server that waits for a client, or serves one, does so after every
  -- round of the main loop.
  pub Step-Serving : {s t : HucState} (l : Fd) → Step s t → Serving l s → Serving l t
  Step-Serving l (accept c on alive ne) (inl q) = inr (c, accept-Connected l c alive ne q)
  Step-Serving {s} l (accept c on alive ne) (inr (d, q)) =
      absurd (ground (arith, q.watch s.listen_fd, q.on, q.apart))
  Step-Serving {s} l (message first second junk on e) (inl q) =
      absurd (ground (arith, q.watch s.connect_fd))
  Step-Serving {s} l (message first second junk on e) (inr (c, q)) =
      message-Serving s l c first second junk e q

  -- As long as each `accept` succeeds, with a descriptor that is not the listening one: from a server
  -- that serves, every state that rounds of the main loop lead to serves too. Either the listening
  -- descriptor alone is watched, or one client's alone.
  Reach-Serving : {s t : HucState} (l : Fd) → Serving l s → Reach s t → Serving l t
  Reach-Serving l q here = q
  Reach-Serving l q (next r st) = Step-Serving l st (Reach-Serving l q r)

-- When everything that it calls succeeds, `huc_realize` on an object without handlers returns and
-- leaves the server waiting for a client on the socket.
realize-Listening :
    (s : HucState) (u : Setup)
    → ((fd : Fd) → s.handlers fd ≡ unwatched)
    → u.msi_init ≡ true
    → u.malloc ≡ true
    → u.socket < 2 ^ 31
    → u.bind ≡ true
    → u.listen ≡ true
    → (t : HucState) × (realize s u ≡ some t) × Listening u.socket t
unfolding realize make_socket
realize-Listening s u none_yet hi hm hs hb hl =
    let opened : HucState = record s {
      hyperthreading_remapping = false;
      listen_fd = u.socket;
      connect_fd = no_fd;
    } in
    (
      set_fd_handler opened u.socket listenfd,
      ground arith,
      record { on = refl; apart = refl; watch = λ fd. ground (arith, none_yet fd) },
    )

-- If `accept` fails, the server is deaf: no valid descriptor is watched any more, so that no
-- handler of the device runs again.
accept_failure :
    (s : HucState) (l : Fd)
    → Listening l s
    → (fd : Fd) → fd < 2 ^ 31
    → (handle_listenfd s no_fd).handlers fd ≡ unwatched
unfolding handle_listenfd
accept_failure s l q fd lt = ground (arith, q.watch fd, q.on)
