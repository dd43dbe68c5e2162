-- ===== src/Domain/Agent.antt =====
-- backend/src/kelvin_assistant/domain/agent.py: the agent run, its tool calls, approvals and results.
pub mod Status
pub mod Names
pub mod Tools
pub mod Run
