-- ===== src/Server.antt =====
-- The server of TimeWeaver, under server/.
pub mod Database
pub mod Executions
pub mod ExecutionService
pub mod Identity
pub mod RateLimit
pub mod AgentRuntime
pub mod RuntimeService
