-- ===== src/Api.antt =====
-- internal/api: the handlers of the control plane's HTTP interface.
pub mod Http
pub mod Server
pub mod AgentJobs
pub mod RestoreTests
pub mod Retention
pub mod HealthScore
pub mod Users
pub mod Jobs
pub mod Systems
pub mod Enrollment
