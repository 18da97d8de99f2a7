-- ===== src/Chunk.antt =====
-- server/chunk/: the chunk servers, which gossip about who is alive.
pub mod Status
pub mod Gossip
pub mod Files
pub mod Server
