-- ===== src/Server.antt =====
-- server/base/, server/request_filters/ and common/kyrin_rsa_helper.cc: what every server does
-- with a request before its handler sees it.
pub mod Base
pub mod Setup
pub mod Start
pub mod Rsa
pub mod Replies
pub mod Example
pub mod Identity
pub mod Redis
pub mod KeyCenter
pub mod Slavenode
