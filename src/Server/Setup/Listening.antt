-- ===== src/Server/Setup/Listening.antt =====
-- What a server's sockets are ready for, by the documented behaviour of the operating system.
use kyrin_box.Prelude.{
  ℕ, ◌%◌, ◌^◌, ◌≡◌, refl, true, Option, none, some, Bool-cases, Option-cases, inl, inr, arith,
}
use Prim.Native.Nat.{bit_or}
use kyrin_box.Server.Setup.{Os, initialize_socket, Outcome, started, open_socket}

module _ (O : Os) where
  -- What is true of a socket: its port, that it listens, and that it does not block.
  pub record Facts : Type 1 where
    pub bound : O.State → O.Fd → ℕ → Type 0
    pub listens : O.State → O.Fd → Type 0
    pub nonblocking : O.State → O.Fd → Type 0

  -- No socket loses what it has.
  pub record Kept (F : Facts) (st st' : O.State) : Type 0 where
    pub bound : (fd : O.Fd) (port : ℕ) → F.bound st fd port → F.bound st' fd port
    pub listens : (fd : O.Fd) → F.listens st fd → F.listens st' fd
    pub nonblocking : (fd : O.Fd) → F.nonblocking st fd → F.nonblocking st' fd

  -- A call that succeeds does what it is for, and no call but `close` takes anything from a socket.
  pub record IsOs (F : Facts) : Type 0 where
    pub socket_keeps : (st : O.State) → Kept F st (O.socket st).1
    pub setsockopt_keeps : (st : O.State) (fd : O.Fd) → Kept F st (O.setsockopt st fd).1
    pub bind_keeps : (st : O.State) (fd : O.Fd) (port : ℕ) → Kept F st (O.bind st fd port).1
    pub listen_keeps : (st : O.State) (fd : O.Fd) (n : ℕ) → Kept F st (O.listen st fd n).1
    pub set_flags_keeps :
        (st : O.State) (fd : O.Fd) (flags : ℕ)
        → Kept F st (O.set_flags st fd (bit_or flags O.o_nonblock)).1
    pub bind_binds :
        (st : O.State) (fd : O.Fd) (port : ℕ)
        → (O.bind st fd port).0 ≡ true
        → F.bound (O.bind st fd port).1 fd port
    pub listen_listens :
        (st : O.State) (fd : O.Fd) (n : ℕ)
        → (O.listen st fd n).0 ≡ true
        → F.listens (O.listen st fd n).1 fd
    pub set_flags_sets :
        (st : O.State) (fd : O.Fd) (flags : ℕ)
        → (O.set_flags st fd (bit_or flags O.o_nonblock)).0 ≡ true
        → F.nonblocking (O.set_flags st fd (bit_or flags O.o_nonblock)).1 fd

  -- A socket that connections to the port come in at.
  pub record Ready (F : Facts) (st : O.State) (fd : O.Fd) (port : ℕ) : Type 0 where
    pub bound : F.bound st fd (port % 2 ^ 16)
    pub listens : F.listens st fd
    pub nonblocking : F.nonblocking st fd

  pub Kept-refl : (F : Facts) (st : O.State) → Kept F st st
  Kept-refl F st = record { bound = λ fd port h. h; listens = λ fd h. h; nonblocking = λ fd h. h }

  pub Kept-trans :
      (F : Facts) (st st' st'' : O.State) → Kept F st st' → Kept F st' st'' → Kept F st st''
  Kept-trans F st st' st'' k k' = record {
    bound = λ fd port h. k'.bound fd port (k.bound fd port h);
    listens = λ fd h. k'.listens fd (k.listens fd h);
    nonblocking = λ fd h. k'.nonblocking fd (k.nonblocking fd h);
  }

  pub Ready-Kept :
      (F : Facts) (st st' : O.State) (fd : O.Fd) (port : ℕ)
      → Kept F st st'
      → Ready F st fd port
      → Ready F st' fd port
  Ready-Kept F st st' fd port k r = record {
    bound = k.bound fd (port % 2 ^ 16) r.bound;
    listens = k.listens fd r.listens;
    nonblocking = k.nonblocking fd r.nonblocking;
  }

  -- `server_initialize_kyrin_server_socket` that gives true.
  initialize_socket-Ready :
      (F : Facts) (port backlog : ℕ) (st : O.State)
      → IsOs F
      → (initialize_socket O port backlog st).0 ≡ true
      → let (_, fd, st') = initialize_socket O port backlog st in
        Ready F st' fd port × Kept F st st'
  unfolding initialize_socket
  initialize_socket-Ready F port backlog st laws h =
      let fd = (O.socket st).0 in
      let st1 = (O.socket st).1 in
      let st2 = (O.setsockopt st1 fd).1 in
      let st3 = (O.bind st2 fd (port % 2 ^ 16)).1 in
      let st4 = (O.listen st3 fd backlog).1 in
      elim (Bool-cases (O.setsockopt st1 fd).0) [
        | inr no_reuse ↦ absurd (ground arith)
        | inl reuse ↦ elim (Bool-cases (O.bind st2 fd (port % 2 ^ 16)).0) [
          | inr unbound ↦ absurd (ground arith)
          | inl bound ↦ elim (Bool-cases (O.listen st3 fd backlog).0) [
            | inr deaf ↦ absurd (ground arith)
            | inl listens ↦ elim (Option-cases (O.get_flags st4 fd)) [
              | inl no_flags ↦ absurd (ground arith)
              | inr (flags, got) ↦
                  let st5 = (O.set_flags st4 fd (bit_or flags O.o_nonblock)).1 in
                  let set = rw (reuse, bound, listens, got, initialize_socket) at h in
                  let keeps = laws.set_flags_keeps st4 fd flags in
                  let later = Kept-trans F st3 st4 st5 (laws.listen_keeps st3 fd backlog) keeps in
                  let ready : Ready F st5 fd port = record {
                    bound =
                        later.bound fd (port % 2 ^ 16)
                          (laws.bind_binds st2 fd (port % 2 ^ 16) bound);
                    listens = keeps.listens fd (laws.listen_listens st3 fd backlog listens);
                    nonblocking = laws.set_flags_sets st4 fd flags set;
                  } in
                  let kept = Kept-trans F st st1 st5 (laws.socket_keeps st) (
                    Kept-trans F st1 st2 st5 (laws.setsockopt_keeps st1 fd)
                      (Kept-trans F st2 st3 st5 (laws.bind_keeps st2 fd (port % 2 ^ 16)) later)) in
                  rw (reuse, bound, listens, got, initialize_socket) (ready, kept)
            ]
          ]
        ]
      ]

  -- A socket that is opened is ready for its port, and the earlier ones stay as they were.
  pub open_socket-Ready :
      (F : Facts) (port backlog : Option ℕ) (st st' : O.State) (fd : O.Fd)
      → IsOs F
      → open_socket O port backlog st ≡ started fd st'
      → (p : ℕ) × (port ≡ some p) × Ready F st' fd p × Kept F st st'
  unfolding open_socket
  open_socket-Ready F none backlog st st' fd laws e = cc
  open_socket-Ready F (some port) none st st' fd laws e = cc
  open_socket-Ready F (some port) (some backlog) st st' fd laws e =
      let fd' = (initialize_socket O port backlog st).1 in
      let st1 = (initialize_socket O port backlog st).2 in
      elim (Bool-cases (initialize_socket O port backlog st).0) [
        | inr no_socket ↦ absurd (ground arith)
        | inl opened ↦
            let (r, k) = initialize_socket-Ready F port backlog st laws opened in
            let e' : ◌≡◌ {A = Outcome O.State O.Fd} (started fd' st1) (started fd st') =
              rw (opened, open_socket) at e in
            let same_fd : fd ≡ fd' = cc in
            let same_st : st' ≡ st1 = cc in rw (same_fd, same_st) (port, refl, r, k)
      ]
