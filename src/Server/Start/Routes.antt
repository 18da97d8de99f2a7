-- ===== src/Server/Start/Routes.antt =====
-- Where the servers' endpoints are once `server_initialize` gave true and `server_start` ran.
use kyrin_box.Prelude.{
  ℕ, ◌<◌, ◌≡◌, ◌∙◌, refl, ap, subst, true, Option, none, some, List, text, Bytes, arith,
}
use kyrin_box.Common.Cluster.{Cluster, ConfigMap, master_config}
use kyrin_box.Common.Configs.Master.{
  upload_file_port, get_oplog_port, confirm_oplog_port, server_threads, upload_file_backlog,
  get_oplog_backlog, confirm_oplog_backlog,
}
use kyrin_box.Common.Configs.Getters.{
  of_config, get_master_confirm_oplog_port, get_master_get_oplog_port,
}
use kyrin_box.Master.Server.{Endpoint, upload_file, confirm_oplog, get_oplog}
use kyrin_box.Server.Setup.{
  Os, LibEvent, Outcome, started, Setting, given, then_with, then_with-started, open_socket,
  server_run, server_put_callback, server_set_evhttp_accept_socket,
}
use kyrin_box.Server.Setup.Listening.{
  Facts, IsOs, Kept, Kept-trans, Ready, Ready-Kept, open_socket-Ready,
}
use kyrin_box.Server.Setup.Serving.{View, IsLibEvent, Serves, one_callback, get_elem?-server_run}
use kyrin_box.Server.Start.Master.{Sockets, server_initialize, server_set_processor, server_start}

given-started :
    {St A : Type 0} (o : Option A) (a : A) (st st' : St)
    → given o st ≡ started a st'
    → (o ≡ some a) × (st ≡ st')
given-started none a st st' e = cc
given-started (some b) a st st' e = (cc, cc)

-- A socket that is opened first, in a chain that gives true.
open_then :
    (O : Os) (F : Facts O) {A : Type 0} (port backlog : Option ℕ) (f : O.Fd → Setting O.State A)
    (a : A) (st st' : O.State) (R : Type 0)
    → IsOs O F
    → ((fd : O.Fd) (st1 : O.State) (p : ℕ)
        → port ≡ some p
        → Ready O F st1 fd p
        → Kept O F st st1
        → f fd st1 ≡ started a st'
        → R)
    → then_with (open_socket O port backlog st) f ≡ started a st'
    → R
open_then O F port backlog f a st st' R laws go e =
    let (fd, st1, opened, e1) = then_with-started (open_socket O port backlog st) f a st' e in
    let (p, n, r, k) = open_socket-Ready O F port backlog st st1 fd laws opened in
    go fd st1 p n r k e1

-- A port with the socket that is ready for it.
abbrev Opened : (O : Os) → Facts O → O.State → O.Fd → Option ℕ → Type 0
Opened O F st fd port = (p : ℕ) × (port ≡ some p) × Ready O F st fd p

abbrev AllOpened : (O : Os) → Facts O → O.State → ConfigMap → Sockets O → Type 0
AllOpened O F st config s =
    Opened O F st s.upload_file_fd (upload_file_port config)
    × Opened O F st s.get_oplog_fd (get_oplog_port config)
    × Opened O F st s.confirm_oplog_fd (confirm_oplog_port config)

started-injective :
    (O : Os) (F : Facts O) (config : ConfigMap) (r s : Sockets O) (st st' : O.State)
    → ◌≡◌ {A = Outcome O.State (Sockets O)} (started r st) (started s st')
    → AllOpened O F st config r
    → AllOpened O F st' config s
started-injective O F config r s st st' e all =
    let same : r ≡ s = cc in
    let same_state : st ≡ st' = cc in
    subst (λ t. AllOpened O F t config s) same_state
      (subst (λ u. AllOpened O F st config u) same all)

server_initialize-Ready :
    (O : Os) (F : Facts O) (cluster : Cluster) (config : ConfigMap) (s : Sockets O)
    (st st' : O.State)
    → IsOs O F
    → master_config cluster 0 ≡ some config
    → server_initialize O true cluster st ≡ started s st'
    → AllOpened O F st' config s
unfolding server_initialize
server_initialize-Ready O F cluster config s st st' laws there e =
    open_then O F (upload_file_port config) (upload_file_backlog config) _ s st st' _ laws
      (λ up st1 p1 n1 r1 k1.
        open_then O F (get_oplog_port config) (get_oplog_backlog config) _ s st1 st' _ laws
          (λ get st2 p2 n2 r2 k2.
            open_then O F (confirm_oplog_port config) (confirm_oplog_backlog config) _ s st2 st' _
              laws
              (λ confirm st3 p3 n3 r3 k3 e3. started-injective O F config _ s st3 st' e3 (
                (p1, n1, Ready-Kept O F st1 st3 up p1 (Kept-trans O F st1 st2 st3 k2 k3) r1),
                (p2, n2, Ready-Kept O F st2 st3 get p2 k3 r2),
                (p3, n3, r3),
              ))))
      (rw (there) at e)

module _ (O : Os) (F : Facts O) (V : LibEvent O.Fd Endpoint) (W : View V) where
  -- The thread `i` of a master that runs `threads` of them.
  thread-Serves :
      (s : Sockets O) (st : O.State) (threads i : ℕ) (port : Option ℕ) (path : Bytes)
      (endpoint : Endpoint) (fd : O.Fd)
      → IsLibEvent V W
      → i < threads
      → server_set_processor O V s V.new i ≡ V.accept_socket (V.set_cb V.new path endpoint) fd
      → Opened O F st fd port
      → Serves O F V W st (server_run V (server_set_processor O V s) threads 0) port path endpoint
  thread-Serves s st threads i port path endpoint fd laws h e (p, number, ready) =
      let (calls, _, accepts) = one_callback V W path endpoint fd laws in
      record {
        thread = i;
        worker = V.accept_socket (V.set_cb V.new path endpoint) fd;
        runs =
            get_elem?-server_run V (server_set_processor O V s) threads 0 i h
            ∙ ap some (ap (server_set_processor O V s V.new) (omega arith) ∙ e);
        calls = calls;
        fd = fd;
        accepts = accepts;
        number = p;
        configured = number;
        ready = ready;
      }

  -- Once a master has started, with three threads or more, it serves the uploads, the confirmations
  -- and the log: each at the port of its configuration, and so at the one that every server whose
  -- cluster has the same configuration for it sends confirmations, or requests for the log, to.
  pub master_served :
      (cluster client : Cluster) (config : ConfigMap) (kbid threads : ℕ) (s : Sockets O)
      (st st' : O.State) (workers : List V.Evhttp)
      → IsOs O F
      → IsLibEvent V W
      → master_config cluster 0 ≡ some config
      → master_config client kbid ≡ some config
      → server_threads config ≡ some threads
      → 2 < threads
      → server_initialize O true cluster st ≡ started s st'
      → server_start O V cluster s ≡ some workers
      → Serves O F V W st' workers (upload_file_port config) (text "/UploadFile") upload_file
        × Serves O F V W st' workers
            (get_master_confirm_oplog_port client kbid)
            (text "/ConfirmOplog")
            confirm_oplog
        × Serves O F V W st' workers
            (get_master_get_oplog_port client kbid)
            (text "/GetOplog")
            get_oplog
  unfolding server_start get_master_confirm_oplog_port get_master_get_oplog_port of_config
      server_set_processor server_put_callback server_set_evhttp_accept_socket
  master_served cluster client config kbid threads s st st' workers os libevent own their count
        enough e run =
      let (up, get, confirm) = server_initialize-Ready O F cluster config s st st' os own e in
      let started' = rw (own, count, server_start) at run in
      let same : server_run V (server_set_processor O V s) threads 0 ≡ workers = cc in
      rw (their, ← same)
        (
          thread-Serves s st' threads 0 (upload_file_port config) (text "/UploadFile") upload_file
              s.upload_file_fd libevent (omega arith) refl up,
          thread-Serves s st' threads 1 (confirm_oplog_port config) (text "/ConfirmOplog")
              confirm_oplog s.confirm_oplog_fd libevent (omega arith) refl confirm,
          thread-Serves s st' threads 2 (get_oplog_port config) (text "/GetOplog") get_oplog
              s.get_oplog_fd libevent enough refl get,
        )
