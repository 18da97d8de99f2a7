-- ===== src/Server/Start.antt =====
-- How the servers come up: `server_initialize`, `server_set_processor`, `server_start` and
-- `server_free` of each.
pub mod Master
pub mod Chunk
pub mod Others
pub mod Routes
pub mod Programs
mod Tests
