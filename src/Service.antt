-- ===== src/Service.antt =====
-- The service that runs the agent: src/modules/agents/agents.service.ts.
pub mod Cache
pub mod Run
pub mod Emitting
pub mod Stream
