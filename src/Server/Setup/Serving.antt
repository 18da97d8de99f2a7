-- ===== src/Server/Setup/Serving.antt =====
-- What a server's threads serve, by the documented behaviour of libevent.
use kyrin_box.Prelude.{
  ℕ, zero, suc, ◌+◌, ◌<◌, ◌≡◌, ◌∙◌, refl, ap, true, false, Option, none, some, List, [], ◌∷◌, Bytes,
  eq_bytes, eq_bytes_iff, get_elem?, if◌then◌else◌, arith,
}
use kyrin_box.Server.Setup.{Os, LibEvent, server_run}
use kyrin_box.Server.Setup.Listening.{Facts, Ready}

module _ {Fd E : Type 0} (V : LibEvent Fd E) where
  -- What an HTTP server calls for a path, and the sockets that it accepts from.
  pub record View : Type 0 where
    pub callback : V.Evhttp → Bytes → Option E
    pub accepted : V.Evhttp → List Fd

  -- The first callback of a path stays.
  pub record IsLibEvent (W : View) : Type 0 where
    pub new_callback : (path : Bytes) → W.callback V.new path ≡ none
    pub new_accepted : W.accepted V.new ≡ []
    pub set_callback :
        (h : V.Evhttp) (path other : Bytes) (endpoint : E)
        → W.callback (V.set_cb h path endpoint) other ≡ (
            if eq_bytes path other
            then some (elim (W.callback h path) [ none ↦ endpoint | some first ↦ first ])
            else W.callback h other)
    pub set_accepted :
        (h : V.Evhttp) (path : Bytes) (endpoint : E)
        → W.accepted (V.set_cb h path endpoint) ≡ W.accepted h
    pub accept_callback :
        (h : V.Evhttp) (fd : Fd) (path : Bytes)
        → W.callback (V.accept_socket h fd) path ≡ W.callback h path
    pub accept_accepted :
        (h : V.Evhttp) (fd : Fd) → W.accepted (V.accept_socket h fd) ≡ fd ∷ W.accepted h

  pub get_elem?-server_run :
      (set_processor : V.Evhttp → ℕ → V.Evhttp) (threads i j : ℕ)
      → j < threads
      → get_elem? (server_run V set_processor threads i) j ≡ some (set_processor V.new (i + j))
  unfolding server_run
  get_elem?-server_run set_processor zero i j h = absurd (omega arith)
  get_elem?-server_run set_processor (suc threads) i zero h =
      ap (λ k. some (set_processor V.new k)) (omega arith)
  get_elem?-server_run set_processor (suc threads) i (suc j) h =
      let rest = get_elem?-server_run set_processor threads (i + 1) j (omega arith) in
      rest ∙ ap (λ k. some (set_processor V.new k)) (omega arith)

-- A thread of the server accepts connections to the port and calls this endpoint for this path.
pub record Serves (O : Os) (F : Facts O) {E : Type 0} (V : LibEvent O.Fd E) (W : View V)
    (st : O.State) (workers : List V.Evhttp) (port : Option ℕ) (path : Bytes) (endpoint : E)
    : Type 0 where
  pub thread : ℕ
  pub worker : V.Evhttp
  pub runs : get_elem? workers thread ≡ some worker
  pub calls : W.callback worker path ≡ some endpoint
  pub fd : O.Fd
  pub accepts : W.accepted worker ≡ fd ∷ []
  pub number : ℕ
  pub configured : port ≡ some number
  pub ready : Ready O F st fd number

-- A thread that is set up with one callback and one socket.
pub one_callback :
    {Fd E : Type 0} (V : LibEvent Fd E) (W : View V) (path : Bytes) (endpoint : E) (fd : Fd)
    → IsLibEvent V W
    → let h = V.accept_socket (V.set_cb V.new path endpoint) fd in
      (W.callback h path ≡ some endpoint)
      × ((other : Bytes) → eq_bytes path other ≡ false → W.callback h other ≡ none)
      × (W.accepted h ≡ fd ∷ [])
one_callback V W path endpoint fd laws =
    let h = V.set_cb V.new path endpoint in
    let same : eq_bytes path path ≡ true = (eq_bytes_iff path path).1 refl in
    (
      rw
          (
            laws.accept_callback h fd path,
            laws.set_callback V.new path path endpoint,
            same,
            laws.new_callback path,
          )
          refl,
      λ other differ.
          rw
            (
              laws.accept_callback h fd other,
              laws.set_callback V.new path other endpoint,
              differ,
              laws.new_callback other,
            )
            refl,
      rw (laws.accept_accepted h fd, laws.set_accepted V.new path endpoint, laws.new_accepted) refl,
    )
