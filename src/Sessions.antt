-- ===== src/Sessions.antt =====
-- Sessions: their locks, memory and plan reviews (src/modules/agents/agents.service.ts and
-- src/modules/agents/services).
pub mod Errors
pub mod Lock
pub mod Ids
pub mod Memory
pub mod Review
