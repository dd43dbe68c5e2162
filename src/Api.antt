-- ===== src/Api.antt =====
-- backend/src/kelvin_assistant/api
pub mod Dependencies
pub mod Program
pub mod RouteErrors
pub mod Responses
pub mod AgentRoutes
pub mod MemoryRoutes
