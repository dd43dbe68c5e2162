-- ===== src/Tools.antt =====
-- backend/src/kelvin_assistant/tools: the tool registry and the workspace allowlist.
pub mod Registry
pub mod Workspaces
