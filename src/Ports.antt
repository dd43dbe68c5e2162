-- ===== src/Ports.antt =====
-- backend/src/kelvin_assistant/ports: what one part of the program requires of another.
pub mod Tools
pub mod Sessions
pub mod AgentClient
