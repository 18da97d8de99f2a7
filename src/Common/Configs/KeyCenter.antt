-- ===== src/Common/Configs/KeyCenter.antt =====
-- common/configs/kyrin_key_center_config.h: what the servers read of a configuration file; `none` is undefined behaviour.
use kyrin_box.Prelude.{ℕ, Bytes, Option}
use kyrin_box.Common.Cluster.{ConfigMap, get_config, get_number}
use kyrin_box.Common.Configs.Keys.{
  k_json_keycenter_get_kyrin_key_backlog, k_json_keycenter_get_kyrin_key_port,
  k_json_keycenter_redis_host, k_json_keycenter_redis_port, k_json_keycenter_set_kyrin_key_backlog,
  k_json_keycenter_set_kyrin_key_port, k_json_machine_address,
}

pub machine_address : ConfigMap → Option Bytes
machine_address config = get_config k_json_machine_address config

pub redis_host : ConfigMap → Option Bytes
redis_host config = get_config k_json_keycenter_redis_host config

pub redis_port : ConfigMap → Option ℕ
redis_port config = get_number k_json_keycenter_redis_port config

pub get_key_port : ConfigMap → Option ℕ
get_key_port config = get_number k_json_keycenter_get_kyrin_key_port config

pub get_key_backlog : ConfigMap → Option ℕ
get_key_backlog config = get_number k_json_keycenter_get_kyrin_key_backlog config

pub set_key_port : ConfigMap → Option ℕ
set_key_port config = get_number k_json_keycenter_set_kyrin_key_port config

pub set_key_backlog : ConfigMap → Option ℕ
set_key_backlog config = get_number k_json_keycenter_set_kyrin_key_backlog config
