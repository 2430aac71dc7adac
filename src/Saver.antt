-- ===== src/Saver.antt =====
-- The Redis checkpoint saver: src/modules/agents/utils/redis-saver.ts.
pub mod Keys
pub mod Threads
pub mod Checkpoints
pub mod Retries
pub mod Writes
