-- ===== src/Server/Start/Chunk.antt =====
-- server/chunk/kyrin_chunk_server.cc: the sockets and the threads of a chunk server.
use kyrin_box.Prelude.{ℕ, Bool, true, false, List, Bytes, ◌==◌, if◌then◌else◌, text}
use kyrin_box.Common.Cluster.{read_config_file}
use kyrin_box.Common.Configs.Chunk.{
  upload_chunk_file_port, upload_chunk_file_backlog, download_chunk_file_port,
  download_chunk_file_backlog, set_file_key_info_port, set_file_key_info_backlog,
  get_file_key_info_port, get_file_key_info_backlog,
}
use kyrin_box.Server.Setup.{
  Os, LibEvent, failed, Setting, ◌>>=◌, pure, open_socket, server_put_callback,
  server_set_evhttp_accept_socket, server_run,
}
use kyrin_box.Chunk.Server.{Endpoint, upload, download, set_info, get_info}

module _ (O : Os) where
  pub record Sockets : Type 0 where
    pub upload_chunk_file_fd : O.Fd
    pub download_chunk_file_fd : O.Fd
    pub set_file_key_info_fd : O.Fd
    pub get_file_key_info_fd : O.Fd

  -- `server_initialize`, given whether the gossiper is there, and the words of
  -- `kyrinbox_config.json`, which the ports are read from.
  unfoldable pub server_initialize : Bool → List Bytes → Setting O.State Sockets
  server_initialize false words = λ st. failed st
  server_initialize true words =
      let config = read_config_file words in
      do
        up ← open_socket O (upload_chunk_file_port config) (upload_chunk_file_backlog config)
        down ← open_socket O (download_chunk_file_port config) (download_chunk_file_backlog config)
        set ← open_socket O (set_file_key_info_port config) (set_file_key_info_backlog config)
        get ← open_socket O (get_file_key_info_port config) (get_file_key_info_backlog config)
        pure (record {
          upload_chunk_file_fd = up;
          download_chunk_file_fd = down;
          set_file_key_info_fd = set;
          get_file_key_info_fd = get;
        })

  -- `server_free` closes one of the four.
  pub server_free : Sockets → O.State → O.State
  server_free s st = O.close st s.upload_chunk_file_fd

module _ (O : Os) (V : LibEvent O.Fd Endpoint) where
  unfoldable pub server_set_processor : Sockets O → V.Evhttp → ℕ → V.Evhttp
  unfolding server_put_callback server_set_evhttp_accept_socket
  server_set_processor s server thread_code =
      if thread_code == 0
      then server_set_evhttp_accept_socket V
          (server_put_callback V server (text "/UploadChunkFile") upload) s.upload_chunk_file_fd
      else if thread_code == 1
      then server_set_evhttp_accept_socket V
          (server_put_callback V server (text "/DownloadChunkFile") download)
          s.download_chunk_file_fd
      else if thread_code == 2
      then server_set_evhttp_accept_socket V
          (server_put_callback V server (text "/SetFileKeyinfo") set_info) s.set_file_key_info_fd
      else server_set_evhttp_accept_socket V
          (server_put_callback V server (text "/GetFileKeyinfo") get_info) s.get_file_key_info_fd

  unfoldable pub server_start : Sockets O → List V.Evhttp
  unfolding server_run
  server_start s = server_run V (server_set_processor s) 4 0
