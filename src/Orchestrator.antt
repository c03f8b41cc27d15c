-- ===== src/Orchestrator.antt =====
-- crates/roos-orchestrator: the agent state machine, the validation of tool input, the system
-- prompt and the reasoning loop.
pub mod State
pub mod Validate
pub mod Prompt
pub mod Calls
pub mod Loop
