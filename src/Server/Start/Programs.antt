-- ===== src/Server/Start/Programs.antt =====
-- server/*/kyrin_*_main.cc: the programs up to where they wait for their threads.
use kyrin_box.Prelude.{ℕ, ◌<◌, ◌≡◌, refl, Bool, true, Option, none, some, List, Bytes, text}
use kyrin_box.Common.Cluster.{Cluster, ConfigMap, master_config}
use kyrin_box.Common.Configs.Master.{upload_file_port, server_threads}
use kyrin_box.Common.Configs.Getters.{get_master_confirm_oplog_port, get_master_get_oplog_port}
use kyrin_box.Chunk.Gossip.{start_gossip}
use kyrin_box.Chunk.Status.{ChunkStatus}
use kyrin_box.Chunk.Status
use kyrin_box.Chunk.Server
use kyrin_box.Master.Sentinel.{Sentinel, start_sentinel, consensus}
use kyrin_box.Master.Server.{Endpoint, upload_file, confirm_oplog, get_oplog}
use kyrin_box.Server.Setup.{Os, LibEvent, server_run, Outcome, undefined, failed, started}
use kyrin_box.Server.Setup.Listening.{Facts, IsOs}
use kyrin_box.Server.Setup.Serving.{View, IsLibEvent, Serves}
use kyrin_box.Server.Start.Master
use kyrin_box.Server.Start.Chunk
use kyrin_box.Server.Start.Others
use kyrin_box.Server.Start.Routes.{master_served}

-- No program looks at the result of `server_initialize`: after the result false `server_start` goes
-- on with sockets that were never set, which is undefined behaviour, `none`.
pub then_start : {St A B : Type 0} → Outcome St A → (A → St → Option B) → Option B
then_start undefined start = none
then_start (failed st) start = none
then_start (started a st) start = start a st

-- kyrin_master_main.cc; nor is the result of `start_sentinel` looked at. The threads of the
-- sentinel were created, or not, as it is given.
module _ (O : Os) (V : LibEvent O.Fd Endpoint) where
  pub run_master :
      Sentinel → Bool → Bool → Cluster → O.State → Option (Sentinel × List V.Evhttp × O.State)
  unfolding then_start
  run_master s server_thread sync_thread cluster st =
      let (sentinel, _) = start_sentinel s cluster.kbid server_thread sync_thread in
      then_start (Master.server_initialize O true cluster st) (λ sockets st'.
        elim (Master.server_start O V cluster sockets) [
          | none ↦ none
          | some workers ↦ some (sentinel, workers, st')
        ])

module _ (O : Os) (F : Facts O) (V : LibEvent O.Fd Endpoint) (W : View V) where
  -- A master whose sockets could be opened, and that has three threads or more, comes up: its
  -- sentinel goes into the election as its own leader, and it serves the uploads, the confirmations
  -- and the log, each at the port of its configuration, which is the one that every server whose
  -- cluster has the same configuration for it sends confirmations, or requests for the log, to.
  pub run_master-Serves :
      (cluster client : Cluster) (config : ConfigMap) (kbid threads : ℕ) (s : Sentinel)
      (server_thread sync_thread : Bool) (sockets : Master.Sockets O) (st st' : O.State)
      → IsOs O F
      → IsLibEvent V W
      → master_config cluster 0 ≡ some config
      → master_config client kbid ≡ some config
      → server_threads config ≡ some threads
      → 2 < threads
      → Master.server_initialize O true cluster st ≡ started sockets st'
      → (s' : Sentinel) × (workers : List V.Evhttp) × (run_master O V s server_thread sync_thread
            cluster st
          ≡ some (s', workers, st'))
        × (s'.status ≡ consensus)
        × (s'.leader_id ≡ cluster.kbid)
        × Serves O F V W st' workers (upload_file_port config) (text "/UploadFile") upload_file
        × Serves O F V W st' workers
            (get_master_confirm_oplog_port client kbid)
            (text "/ConfirmOplog")
            confirm_oplog
        × Serves O F V W st' workers
            (get_master_get_oplog_port client kbid)
            (text "/GetOplog")
            get_oplog
  unfolding run_master then_start start_sentinel Master.server_start
  run_master-Serves cluster client config kbid threads s server_thread sync_thread sockets st st' os
        libevent own their count enough opened =
      let workers = server_run V (Master.server_set_processor O V sockets) threads 0 in
      let runs : Master.server_start O V cluster sockets ≡ some workers =
        rw (own, count, Master.server_start) refl in
      let (up, confirm, get) =
        master_served O F V W cluster client config kbid threads sockets st st' workers os libevent
          own their count enough opened runs in
      (
        (start_sentinel s cluster.kbid server_thread sync_thread).0,
        workers,
        rw (opened, then_start, runs, run_master) refl,
        refl,
        refl,
        up,
        confirm,
        get,
      )

-- kyrin_chunk_main.cc
module _ (O : Os) (V : LibEvent O.Fd Server.Endpoint) where
  pub run_chunk :
      (ℕ → Status.Config)
      → List ℕ × List ℕ
      → ℕ
      → Bool
      → Bool
      → List Bytes
      → ChunkStatus × O.State
      → Option (ChunkStatus × List V.Evhttp × O.State)
  unfolding then_start
  run_chunk cluster kbids now server_thread sync_thread words (s, st) =
      let (status, _) = start_gossip cluster kbids now server_thread sync_thread s in
      then_start (Chunk.server_initialize O true words st)
        (λ sockets st'. some (status, Chunk.server_start O V sockets, st'))

-- kyrin_key_center_main.cc
module _ (O : Os) (V : LibEvent O.Fd Others.KeyEndpoint) where
  pub run_keycenter : Cluster → O.State → Option (List V.Evhttp × O.State)
  unfolding then_start
  run_keycenter cluster st =
      then_start (Others.initialize_keycenter O cluster st)
        (λ sockets st'. some (Others.start_keycenter O V sockets, st'))

-- kyrin_slavenode_main.cc
module _ (O : Os) (V : LibEvent O.Fd Others.FileEndpoint) where
  pub run_slavenode : List Bytes → O.State → Option (List V.Evhttp × O.State)
  unfolding then_start
  run_slavenode words st =
      then_start (Others.initialize_slavenode O true words st)
        (λ fd st'. some (Others.start_slavenode O V fd, st'))
