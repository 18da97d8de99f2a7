-- ===== src/Common/Configs/Keys.antt =====
-- common/kyrin_constants.cc: the keys of the configuration files.
use kyrin_box.Prelude.{Bytes, text}

abbrev pub k_json_server_type : Bytes
k_json_server_type = text "ServerType"

abbrev pub k_json_kbid : Bytes
k_json_kbid = text "Kbid"

abbrev pub k_json_master_server_count : Bytes
k_json_master_server_count = text "MasterServerCount"

abbrev pub k_json_chunk_seed_count : Bytes
k_json_chunk_seed_count = text "ChunkSeedCount"

abbrev pub k_json_machine_address : Bytes
k_json_machine_address = text "MachineAddress"

abbrev pub k_json_master_upload_file_port : Bytes
k_json_master_upload_file_port = text "MasterUploadFilePort"

abbrev pub k_json_master_upload_file_backlog : Bytes
k_json_master_upload_file_backlog = text "MasterUploadFileBacklog"

abbrev pub k_json_master_get_oplog_port : Bytes
k_json_master_get_oplog_port = text "MasterGetOplogPort"

abbrev pub k_json_master_get_oplog_backlog : Bytes
k_json_master_get_oplog_backlog = text "MasterGetOplogBacklog"

abbrev pub k_json_master_confirm_oplog_port : Bytes
k_json_master_confirm_oplog_port = text "MasterConfirmOplogPort"

abbrev pub k_json_master_confirm_oplog_backlog : Bytes
k_json_master_confirm_oplog_backlog = text "MasterConfirmOplogBacklog"

abbrev pub k_json_master_sentinel_port : Bytes
k_json_master_sentinel_port = text "MasterSentinelPort"

abbrev pub k_json_master_server_threads : Bytes
k_json_master_server_threads = text "MasterServerThreads"

abbrev pub k_json_master_userdata_database_path : Bytes
k_json_master_userdata_database_path = text "MasterUserdataDatabasePath"

abbrev pub k_json_master_oplog_database_path : Bytes
k_json_master_oplog_database_path = text "MasterOplogDatabasePath"

abbrev pub k_json_slavenode_redis_host : Bytes
k_json_slavenode_redis_host = text "SlavenodeRedisHost"

abbrev pub k_json_slavenode_redis_port : Bytes
k_json_slavenode_redis_port = text "SlavenodeRedisPort"

abbrev pub k_json_slavenode_download_file_port : Bytes
k_json_slavenode_download_file_port = text "SlavenodeDownloadFilePort"

abbrev pub k_json_slavenode_download_file_backlog : Bytes
k_json_slavenode_download_file_backlog = text "SlavenodeDownloadFileBacklog"

abbrev pub k_json_chunk_gossip_server_port : Bytes
k_json_chunk_gossip_server_port = text "ChunkGossipServerPort"

abbrev pub k_json_chunk_gossip_server_backlog : Bytes
k_json_chunk_gossip_server_backlog = text "ChunkGossipServerBacklog"

abbrev pub k_json_chunk_machine_address : Bytes
k_json_chunk_machine_address = text "ChunkMachineAddress"

abbrev pub k_json_chunk_role : Bytes
k_json_chunk_role = text "ChunkRole"

abbrev pub k_json_chunk_upload_chunk_file_port : Bytes
k_json_chunk_upload_chunk_file_port = text "ChunkUploadChunkFilePort"

abbrev pub k_json_chunk_upload_chunk_file_backlog : Bytes
k_json_chunk_upload_chunk_file_backlog = text "ChunkUploadChunkFileBacklog"

abbrev pub k_json_chunk_download_chunk_file_port : Bytes
k_json_chunk_download_chunk_file_port = text "ChunkDownloadChunkFilePort"

abbrev pub k_json_chunk_download_chunk_file_backlog : Bytes
k_json_chunk_download_chunk_file_backlog = text "ChunkDownloadChunkFileBacklog"

abbrev pub k_json_chunk_set_file_key_info_port : Bytes
k_json_chunk_set_file_key_info_port = text "ChunkSetFileKeyInfoPort"

abbrev pub k_json_chunk_set_file_key_info_backlog : Bytes
k_json_chunk_set_file_key_info_backlog = text "ChunkSetFileKeyInfoBacklog"

abbrev pub k_json_chunk_get_file_key_info_port : Bytes
k_json_chunk_get_file_key_info_port = text "ChunkGetFileKeyInfoPort"

abbrev pub k_json_chunk_get_file_key_info_backlog : Bytes
k_json_chunk_get_file_key_info_backlog = text "ChunkGetFileKeyInfoBacklog"

abbrev pub k_json_keycenter_redis_host : Bytes
k_json_keycenter_redis_host = text "KeyCenterRedisHost"

abbrev pub k_json_keycenter_redis_port : Bytes
k_json_keycenter_redis_port = text "KeyCenterRedisPort"

abbrev pub k_json_keycenter_set_kyrin_key_port : Bytes
k_json_keycenter_set_kyrin_key_port = text "KeyCenterSetKyrinKeyPort"

abbrev pub k_json_keycenter_set_kyrin_key_backlog : Bytes
k_json_keycenter_set_kyrin_key_backlog = text "KeyCenterSetKyrinKeyBacklog"

abbrev pub k_json_keycenter_get_kyrin_key_port : Bytes
k_json_keycenter_get_kyrin_key_port = text "KeyCenterGetKyrinKeyPort"

abbrev pub k_json_keycenter_get_kyrin_key_backlog : Bytes
k_json_keycenter_get_kyrin_key_backlog = text "KeyCenterGetKyrinKeyBacklog"

abbrev pub k_json_chunk_keyinfo_database_path : Bytes
k_json_chunk_keyinfo_database_path = text "ChunkKeyinfoDatabasePath"
