-- ===== src/State.antt =====
-- The agent state (src/modules/agents/state) and the updates that the graph's nodes return.
pub mod Phase
pub mod Shape
pub mod Updates
pub mod Transitions
pub mod Initial
pub mod Bounds
