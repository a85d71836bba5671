-- ===== src/Mcp/Index.antt =====
-- mcp_server/bridge_mcp/index.py: from the texts of files to an index, and from an index on disk to one in memory.
pub mod Chunks
pub mod Batches
pub mod Format
pub mod Load
pub mod Guard
pub mod Build
pub mod Cache
