-- ===== src/Server/Start/Master.antt =====
-- server/master/kyrin_master_server.cc: the sockets and the threads of a master.
use kyrin_box.Prelude.{ℕ, Bool, true, false, Option, none, some, List, ◌==◌, if◌then◌else◌, text}
use kyrin_box.Common.Cluster.{Cluster, master_config}
use kyrin_box.Common.Configs.Master.{
  upload_file_port, upload_file_backlog, get_oplog_port, get_oplog_backlog, confirm_oplog_port,
  confirm_oplog_backlog, server_threads,
}
use kyrin_box.Server.Setup.{
  Os, LibEvent, failed, Setting, ◌>>=◌, pure, given, open_socket, server_put_callback,
  server_set_evhttp_accept_socket, server_run,
}
use kyrin_box.Master.Server.{Endpoint, upload_file, confirm_oplog, get_oplog}

module _ (O : Os) where
  pub record Sockets : Type 0 where
    pub upload_file_fd : O.Fd
    pub get_oplog_fd : O.Fd
    pub confirm_oplog_fd : O.Fd

  -- `server_initialize`, given whether the sentinel is there. What it makes besides are the handlers
  -- and the databases, whose opening has no say in the result.
  unfoldable pub server_initialize : Bool → Cluster → Setting O.State Sockets
  server_initialize false cluster = λ st. failed st
  server_initialize true cluster = do
    config ← given (master_config cluster 0)
    upload ← open_socket O (upload_file_port config) (upload_file_backlog config)
    get ← open_socket O (get_oplog_port config) (get_oplog_backlog config)
    confirm ← open_socket O (confirm_oplog_port config) (confirm_oplog_backlog config)
    pure (record { upload_file_fd = upload; get_oplog_fd = get; confirm_oplog_fd = confirm })

  pub server_free : Sockets → O.State → O.State
  server_free s st =
      O.close (O.close (O.close st s.upload_file_fd) s.get_oplog_fd) s.confirm_oplog_fd

module _ (O : Os) (V : LibEvent O.Fd Endpoint) where
  unfoldable pub server_set_processor : Sockets O → V.Evhttp → ℕ → V.Evhttp
  unfolding server_put_callback server_set_evhttp_accept_socket
  server_set_processor s server thread_code =
      if thread_code == 0
      then server_set_evhttp_accept_socket V
          (server_put_callback V server (text "/UploadFile") upload_file) s.upload_file_fd
      else if thread_code == 1
      then server_set_evhttp_accept_socket V
          (server_put_callback V server (text "/ConfirmOplog") confirm_oplog) s.confirm_oplog_fd
      else server_set_evhttp_accept_socket V
          (server_put_callback V server (text "/GetOplog") get_oplog) s.get_oplog_fd

  -- `server_start`; `none` is undefined behaviour.
  unfoldable pub server_start : Cluster → Sockets O → Option (List V.Evhttp)
  unfolding server_run
  server_start cluster s = elim (master_config cluster 0) [
    | none ↦ none
    | some config ↦ elim (server_threads config) [
      | none ↦ none
      | some threads ↦ some (server_run V (server_set_processor s) threads 0)
    ]
  ]
