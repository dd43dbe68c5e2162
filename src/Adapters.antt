-- ===== src/Adapters.antt =====
-- backend/src/kelvin_assistant/adapters: the in-memory stores and the token file.
pub mod MemoryAgentRuns
pub mod MemorySessions
pub mod FileApiTokens
pub mod WriteTools
pub mod MemorySecurityAudit
