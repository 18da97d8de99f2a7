-- ===== src/Common/Configs/Chunk.antt =====
-- common/configs/kyrin_chunk_config.h: what the servers read of a configuration file; `none` is undefined behaviour.
use kyrin_box.Prelude.{ℕ, Bytes, Option}
use kyrin_box.Common.Cluster.{ConfigMap, get_config, get_number}
use kyrin_box.Common.Configs.Keys.{
  k_json_chunk_download_chunk_file_backlog, k_json_chunk_download_chunk_file_port,
  k_json_chunk_get_file_key_info_backlog, k_json_chunk_get_file_key_info_port,
  k_json_chunk_gossip_server_backlog, k_json_chunk_gossip_server_port,
  k_json_chunk_keyinfo_database_path, k_json_chunk_machine_address, k_json_chunk_role,
  k_json_chunk_set_file_key_info_backlog, k_json_chunk_set_file_key_info_port,
  k_json_chunk_upload_chunk_file_backlog, k_json_chunk_upload_chunk_file_port,
}

pub gossip_server_port : ConfigMap → Option ℕ
gossip_server_port config = get_number k_json_chunk_gossip_server_port config

pub gossip_server_backlog : ConfigMap → Option ℕ
gossip_server_backlog config = get_number k_json_chunk_gossip_server_backlog config

pub machine_address : ConfigMap → Option Bytes
machine_address config = get_config k_json_chunk_machine_address config

pub role : ConfigMap → Option Bytes
role config = get_config k_json_chunk_role config

pub set_file_key_info_port : ConfigMap → Option ℕ
set_file_key_info_port config = get_number k_json_chunk_set_file_key_info_port config

pub set_file_key_info_backlog : ConfigMap → Option ℕ
set_file_key_info_backlog config = get_number k_json_chunk_set_file_key_info_backlog config

pub get_file_key_info_port : ConfigMap → Option ℕ
get_file_key_info_port config = get_number k_json_chunk_get_file_key_info_port config

pub get_file_key_info_backlog : ConfigMap → Option ℕ
get_file_key_info_backlog config = get_number k_json_chunk_get_file_key_info_backlog config

pub download_chunk_file_port : ConfigMap → Option ℕ
download_chunk_file_port config = get_number k_json_chunk_download_chunk_file_port config

pub download_chunk_file_backlog : ConfigMap → Option ℕ
download_chunk_file_backlog config = get_number k_json_chunk_download_chunk_file_backlog config

pub upload_chunk_file_port : ConfigMap → Option ℕ
upload_chunk_file_port config = get_number k_json_chunk_upload_chunk_file_port config

pub upload_chunk_file_backlog : ConfigMap → Option ℕ
upload_chunk_file_backlog config = get_number k_json_chunk_upload_chunk_file_backlog config

pub keyinfo_database_path : ConfigMap → Option Bytes
keyinfo_database_path config = get_config k_json_chunk_keyinfo_database_path config
