-- ===== src/Master.antt =====
-- server/master/: the masters, which elect a leader and replicate the operation log, and their client.
pub mod Client
pub mod Sentinel
pub mod Oplog
pub mod GetOplog
pub mod ConfirmOplog
pub mod UploadFile
pub mod Server
