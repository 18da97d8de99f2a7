-- ===== src/Common/Configs/Getters.antt =====
-- common/kyrin_cluster.h: where a server of the cluster is, and how it is set up. A kbid of 0
-- stands for this server, and `none` is undefined behaviour.
use kyrin_box.Prelude.{ℕ, Bytes, Option, none, some}
use kyrin_box.Common.Cluster.{Cluster, ConfigMap, master_config, chunk_config}
use kyrin_box.Common.Configs.Master
use kyrin_box.Common.Configs.Chunk
use kyrin_box.Common.Configs.KeyCenter

-- A getter of the configuration that an index leads to.
unfoldable pub of_config {ℓ} : {A : Type ℓ} → (ConfigMap → Option A) → Option ConfigMap → Option A
of_config getter none = none
of_config getter (some config) = getter config

pub get_chunk_ip : Cluster → ℕ → Option Bytes
get_chunk_ip c kbid = of_config Chunk.machine_address (chunk_config c kbid)

pub get_chunk_gossip_port : Cluster → ℕ → Option ℕ
get_chunk_gossip_port c kbid = of_config Chunk.gossip_server_port (chunk_config c kbid)

pub get_chunk_set_file_key_info_port : Cluster → ℕ → Option ℕ
get_chunk_set_file_key_info_port c kbid =
    of_config Chunk.set_file_key_info_port (chunk_config c kbid)

pub get_chunk_get_file_key_info_port : Cluster → ℕ → Option ℕ
get_chunk_get_file_key_info_port c kbid =
    of_config Chunk.get_file_key_info_port (chunk_config c kbid)

pub get_chunk_upload_chunk_file_port : Cluster → ℕ → Option ℕ
get_chunk_upload_chunk_file_port c kbid =
    of_config Chunk.upload_chunk_file_port (chunk_config c kbid)

pub get_chunk_download_chunk_file_port : Cluster → ℕ → Option ℕ
get_chunk_download_chunk_file_port c kbid =
    of_config Chunk.download_chunk_file_port (chunk_config c kbid)

pub get_keycenter_redis_host : Cluster → Option Bytes
get_keycenter_redis_host c = KeyCenter.redis_host c.key_center_config

pub get_keycenter_redis_port : Cluster → Option ℕ
get_keycenter_redis_port c = KeyCenter.redis_port c.key_center_config

pub get_keycenter_host : Cluster → Option Bytes
get_keycenter_host c = KeyCenter.machine_address c.key_center_config

pub get_keycenter_get_key_port : Cluster → Option ℕ
get_keycenter_get_key_port c = KeyCenter.get_key_port c.key_center_config

pub get_keycenter_set_key_port : Cluster → Option ℕ
get_keycenter_set_key_port c = KeyCenter.set_key_port c.key_center_config

pub get_keycenter_get_key_backlog : Cluster → Option ℕ
get_keycenter_get_key_backlog c = KeyCenter.get_key_backlog c.key_center_config

pub get_keycenter_set_key_backlog : Cluster → Option ℕ
get_keycenter_set_key_backlog c = KeyCenter.set_key_backlog c.key_center_config

pub get_master_ip : Cluster → ℕ → Option Bytes
get_master_ip c kbid = of_config Master.machine_address (master_config c kbid)

pub get_master_sentinel_port : Cluster → ℕ → Option ℕ
get_master_sentinel_port c kbid = of_config Master.sentinel_port (master_config c kbid)

unfoldable pub get_master_confirm_oplog_port : Cluster → ℕ → Option ℕ
get_master_confirm_oplog_port c kbid = of_config Master.confirm_oplog_port (master_config c kbid)

unfoldable pub get_master_get_oplog_port : Cluster → ℕ → Option ℕ
get_master_get_oplog_port c kbid = of_config Master.get_oplog_port (master_config c kbid)

pub get_kbid : Cluster → ℕ
get_kbid c = c.kbid

pub get_master_count : Cluster → ℕ
get_master_count c = c.master_server_count
