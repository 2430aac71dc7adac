-- ===== src/Llm.antt =====
-- The LLM provider: src/modules/llm/llm.provider.ts and model-router.ts.
pub mod Models
pub mod Instances
pub mod Breaker
pub mod Errors
pub mod Retry
pub mod Calls
