-- ===== src/Control/Guidance.antt =====
-- internal/control/mcp_guidance.go: what an agent can read of the server.
pub mod Texts
pub mod Prompts
pub mod Resources
pub mod Found
