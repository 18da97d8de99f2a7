-- ===== src/Io.antt =====
-- io/: the HTTP client and the database wrapper.
pub mod Retry
pub mod Codec
pub mod HttpClient
pub mod Database
