-- ===== src/Common/Configs/Master.antt =====
-- common/configs/kyrin_master_config.h: what the servers read of a configuration file; `none` is undefined behaviour.
use kyrin_box.Prelude.{ℕ, Bytes, Option}
use kyrin_box.Common.Cluster.{ConfigMap, get_config, get_number}
use kyrin_box.Common.Configs.Keys.{
  k_json_machine_address, k_json_master_confirm_oplog_backlog, k_json_master_confirm_oplog_port,
  k_json_master_get_oplog_backlog, k_json_master_get_oplog_port, k_json_master_oplog_database_path,
  k_json_master_sentinel_port, k_json_master_server_threads, k_json_master_upload_file_backlog,
  k_json_master_upload_file_port, k_json_master_userdata_database_path,
}

unfoldable pub upload_file_port : ConfigMap → Option ℕ
upload_file_port config = get_number k_json_master_upload_file_port config

unfoldable pub confirm_oplog_port : ConfigMap → Option ℕ
confirm_oplog_port config = get_number k_json_master_confirm_oplog_port config

unfoldable pub get_oplog_port : ConfigMap → Option ℕ
get_oplog_port config = get_number k_json_master_get_oplog_port config

pub sentinel_port : ConfigMap → Option ℕ
sentinel_port config = get_number k_json_master_sentinel_port config

unfoldable pub upload_file_backlog : ConfigMap → Option ℕ
upload_file_backlog config = get_number k_json_master_upload_file_backlog config

unfoldable pub confirm_oplog_backlog : ConfigMap → Option ℕ
confirm_oplog_backlog config = get_number k_json_master_confirm_oplog_backlog config

unfoldable pub get_oplog_backlog : ConfigMap → Option ℕ
get_oplog_backlog config = get_number k_json_master_get_oplog_backlog config

unfoldable pub server_threads : ConfigMap → Option ℕ
server_threads config = get_number k_json_master_server_threads config

pub userdata_database_path : ConfigMap → Option Bytes
userdata_database_path config = get_config k_json_master_userdata_database_path config

pub oplog_database_path : ConfigMap → Option Bytes
oplog_database_path config = get_config k_json_master_oplog_database_path config

pub machine_address : ConfigMap → Option Bytes
machine_address config = get_config k_json_machine_address config
