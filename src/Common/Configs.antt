-- ===== src/Common/Configs.antt =====
-- common/configs/ and common/kyrin_constants.cc: what the configuration files hold.
pub mod Keys
pub mod Master
pub mod Chunk
pub mod KeyCenter
pub mod Slavenode
pub mod Getters
