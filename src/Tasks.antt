-- ===== src/Tasks.antt =====
-- worker/ai_bridge/tasks.py.
pub mod Redact
pub mod Luhn
pub mod Validate
pub mod Rerank
pub mod Cards
pub mod Ibans
