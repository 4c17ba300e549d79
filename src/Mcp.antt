-- ===== src/Mcp.antt =====
-- internal/mcp: the MCP server that the shim runs for Claude Code.
pub mod Json
pub mod Schema
pub mod Codec
pub mod Tools
pub mod Response
pub mod Server
pub mod Channel
pub mod Verdict
