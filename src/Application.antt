-- ===== src/Application.antt =====
-- backend/src/kelvin_assistant/application: the services.
pub mod ToolPolicy
pub mod Agent
pub mod AgentPlanning
pub mod Chat
pub mod Knowledge
pub mod LocalAgent
pub mod Memory
