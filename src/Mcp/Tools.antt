-- ===== src/Mcp/Tools.antt =====
-- mcp_server/bridge_mcp/tools.py: the checks on what a tool is given and on what the worker returns, the
-- wait for a worker at capacity, and the search.
pub mod Replies
pub mod Texts
pub mod Call
pub mod Search
