-- ===== src/Domain.antt =====
-- backend/src/kelvin_assistant/domain
pub mod Json
pub mod Agent
pub mod ContextGuard
pub mod Planner
pub mod Chat
pub mod Auth
pub mod Knowledge
pub mod Memory
