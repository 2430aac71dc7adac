-- ===== src/Nodes.antt =====
-- The nodes of the agent graph: src/modules/agents/nodes. A node takes the services and the state,
-- and returns updates or throws.
pub mod Services
pub mod Repair
pub mod Placeholders
pub mod Planning
pub mod Validation
pub mod Execution
pub mod Parallel
pub mod Normalizing
pub mod Judging
pub mod Supervising
pub mod Answering
pub mod Terminal
pub mod Researching
