-- ===== src/Server/Start/Others.antt =====
-- The key centre, the slave nodes, and the servers of the sentinel and of the gossiper.
use kyrin_box.Prelude.{
  ℕ, ◌*◌, Bool, true, false, Option, some, List, Bytes, ◌==◌, if◌then◌else◌, text,
}
use kyrin_box.Common.Cluster.{Cluster, chunk_config, read_config_file}
use kyrin_box.Common.Configs.Chunk.{gossip_server_port, gossip_server_backlog}
use kyrin_box.Common.Configs.Slavenode.{download_file_port, download_file_backlog}
use kyrin_box.Common.Configs.Getters.{
  of_config, get_keycenter_get_key_port, get_keycenter_get_key_backlog, get_keycenter_set_key_port,
  get_keycenter_set_key_backlog, get_master_sentinel_port,
}
use kyrin_box.Server.Setup.{
  Os, LibEvent, failed, Setting, ◌>>=◌, pure, open_socket, server_put_callback,
  server_set_evhttp_accept_socket, server_run,
}

-- server/keycenter/kyrin_key_center_server.cc
pub data KeyEndpoint : Type 0 where
  get_kyrin_key set_kyrin_key : KeyEndpoint

-- server/slavenode/kyrin_slavenode_server.cc
pub data FileEndpoint : Type 0 where
  download_file : FileEndpoint

-- server/master/kyrin_master_sentinel_server.cc
pub data SentinelEndpoint : Type 0 where
  get_status get_vote : SentinelEndpoint

-- server/chunk/kyrin_chunk_gossiper_server.cc
pub data GossipEndpoint : Type 0 where
  get_gossip : GossipEndpoint

module _ (O : Os) where
  pub record KeySockets : Type 0 where
    pub get_key_fd : O.Fd
    pub set_key_fd : O.Fd

  pub initialize_keycenter : Cluster → Setting O.State KeySockets
  initialize_keycenter cluster = do
    get ← open_socket O (get_keycenter_get_key_port cluster) (get_keycenter_get_key_backlog cluster)
    set ← open_socket O (get_keycenter_set_key_port cluster) (get_keycenter_set_key_backlog cluster)
    pure (record { get_key_fd = get; set_key_fd = set })

  pub free_keycenter : KeySockets → O.State → O.State
  free_keycenter s st = O.close (O.close st s.get_key_fd) s.set_key_fd

  -- Given whether the synchronisation is there, and the words of `kyrinbox_config.json`.
  pub initialize_slavenode : Bool → List Bytes → Setting O.State O.Fd
  initialize_slavenode false words = λ st. failed st
  initialize_slavenode true words =
      let config = read_config_file words in
      open_socket O (download_file_port config) (download_file_backlog config)

  pub free_slavenode : O.Fd → O.State → O.State
  free_slavenode download_file_fd st = O.close st download_file_fd

  pub initialize_sentinel_server : Option ℕ → Option ℕ → Setting O.State O.Fd
  initialize_sentinel_server port backlog = open_socket O port backlog

  pub close_sentinel_server : O.Fd → O.State → O.State
  close_sentinel_server server_listen_fd st = O.close st server_listen_fd

  pub initialize_gossiper_server : Option ℕ → Option ℕ → Setting O.State O.Fd
  initialize_gossiper_server port backlog = open_socket O port backlog

  pub close_gossiper_server : O.Fd → O.State → O.State
  close_gossiper_server server_listen_fd st = O.close st server_listen_fd

module _ (O : Os) (V : LibEvent O.Fd KeyEndpoint) where
  pub keycenter_processor : KeySockets O → V.Evhttp → ℕ → V.Evhttp
  unfolding server_put_callback server_set_evhttp_accept_socket
  keycenter_processor s server thread_code =
      if thread_code == 0
      then server_set_evhttp_accept_socket V
          (server_put_callback V server (text "/GetKyrinKey") get_kyrin_key) s.get_key_fd
      else server_set_evhttp_accept_socket V
          (server_put_callback V server (text "/SetKyrinKey") set_kyrin_key) s.set_key_fd

  pub start_keycenter : KeySockets O → List V.Evhttp
  unfolding server_run
  start_keycenter s = server_run V (keycenter_processor s) 2 0

module _ (O : Os) (V : LibEvent O.Fd FileEndpoint) where
  pub slavenode_processor : O.Fd → V.Evhttp → ℕ → V.Evhttp
  unfolding server_put_callback server_set_evhttp_accept_socket
  slavenode_processor fd server thread_code =
      server_set_evhttp_accept_socket V
        (server_put_callback V server (text "/DownloadFile") download_file) fd

  pub start_slavenode : O.Fd → List V.Evhttp
  unfolding server_run
  start_slavenode fd = server_run V (slavenode_processor fd) 4 0

module _ (O : Os) (V : LibEvent O.Fd SentinelEndpoint) where
  pub sentinel_processor : O.Fd → V.Evhttp → ℕ → V.Evhttp
  unfolding server_put_callback server_set_evhttp_accept_socket
  sentinel_processor fd server thread_code =
      server_set_evhttp_accept_socket V
        (server_put_callback V (server_put_callback V server (text "/GetStatus") get_status)
          (text "/GetVote") get_vote)
        fd

  pub start_sentinel_server : O.Fd → List V.Evhttp
  unfolding server_run
  start_sentinel_server fd = server_run V (sentinel_processor fd) 1 0

  -- `sentinel_thread_func`: the server of this master's sentinel, until its thread ends.
  pub sentinel_thread_func : Cluster → Setting O.State (List V.Evhttp)
  sentinel_thread_func cluster = do
    fd ← initialize_sentinel_server O (get_master_sentinel_port cluster 0) (some (128 * 8))
    pure (start_sentinel_server fd)

module _ (O : Os) (V : LibEvent O.Fd GossipEndpoint) where
  pub gossiper_processor : O.Fd → V.Evhttp → ℕ → V.Evhttp
  unfolding server_put_callback server_set_evhttp_accept_socket
  gossiper_processor fd server thread_code =
      server_set_evhttp_accept_socket V
        (server_put_callback V server (text "/GetStatus") get_gossip) fd

  pub start_gossiper_server : O.Fd → List V.Evhttp
  unfolding server_run
  start_gossiper_server fd = server_run V (gossiper_processor fd) 1 0

  -- `gossip_server_thread_func`: the server of this chunk server's gossiper, until its thread ends.
  pub gossip_server_thread_func : Cluster → Setting O.State (List V.Evhttp)
  gossip_server_thread_func cluster = do
    fd ←
        initialize_gossiper_server O (of_config gossip_server_port (chunk_config cluster 0))
          (of_config gossip_server_backlog (chunk_config cluster 0))
    pure (start_gossiper_server fd)
