-- ===== src/Common/Configs/Slavenode.antt =====
-- common/configs/kyrin_slavenode_config.h: what the servers read of a configuration file; `none` is undefined behaviour.
use kyrin_box.Prelude.{ℕ, Bytes, Option}
use kyrin_box.Common.Cluster.{ConfigMap, get_config, get_number}
use kyrin_box.Common.Configs.Keys.{
  k_json_slavenode_download_file_backlog, k_json_slavenode_download_file_port,
  k_json_slavenode_redis_host, k_json_slavenode_redis_port,
}

pub redis_host : ConfigMap → Option Bytes
redis_host config = get_config k_json_slavenode_redis_host config

pub redis_port : ConfigMap → Option ℕ
redis_port config = get_number k_json_slavenode_redis_port config

pub download_file_port : ConfigMap → Option ℕ
download_file_port config = get_number k_json_slavenode_download_file_port config

pub download_file_backlog : ConfigMap → Option ℕ
download_file_backlog config = get_number k_json_slavenode_download_file_backlog config
