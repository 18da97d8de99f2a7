-- ===== src/Common.antt =====
-- common/: the helpers that every server links.
pub mod OplogId
pub mod Base64
pub mod Hex
pub mod LruCache
pub mod Decimal
pub mod Cluster
pub mod Configs
