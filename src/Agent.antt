-- ===== src/Agent.antt =====
-- The agent process: agent/services/time_weaver/*.py.
pub mod Json
pub mod Models
pub mod ApiErrors
pub mod ApiClient
pub mod Envelope
pub mod RetryBackoff
pub mod LogGate
pub mod CredentialManager
pub mod OperatingState
pub mod Outbox
pub mod SyncCoordinator
pub mod ApSchedulerAdapter
pub mod Application
