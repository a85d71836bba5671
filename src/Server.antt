-- ===== src/Server.antt =====
-- worker/ai_bridge/server.py.
pub mod Routes
pub mod Http
pub mod Handler
pub mod Tokens
pub mod Head
pub mod Busy
pub mod Slots
pub mod Stop
