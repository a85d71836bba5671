-- ===== src/Jobs.antt =====
-- worker/ai_bridge/jobs.py.
pub mod Types
pub mod Table
pub mod Db
pub mod Finish
pub mod Steps
pub mod Submit
pub mod Request
pub mod Dispatch
pub mod Listen
pub mod Service
pub mod Invariants
pub mod Limits
pub mod Keys
pub mod Reach
pub mod Idempotency
pub mod Retry
pub mod Final
pub mod Close
pub mod Open
pub mod Drain
pub mod Series
pub mod Snapshot
