-- ===== src/Mcp.antt =====
-- mcp_server/bridge_mcp: the MCP server's side of the bridge: the client of the worker and the index files.
pub mod Run
pub mod Index
pub mod Tools
pub mod Protocol
