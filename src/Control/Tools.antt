-- ===== src/Control/Tools.antt =====
-- internal/control/mcp_server.go: the MCP tools.
pub mod Inputs
pub mod Errors
pub mod Capabilities
pub mod Outputs
pub mod Reports
pub mod Guidance
pub mod Handlers
pub mod Evidence
pub mod Answers
pub mod Registered
pub mod Hints
pub mod Lifecycle
pub mod Checked
pub mod Shown
pub mod Deliveries
pub mod Repeated
