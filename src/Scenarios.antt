-- ===== src/Scenarios.antt =====
-- Concrete catalogs, and the theorems applied to them.
pub mod Data
pub mod Jobs
pub mod Dispatch
pub mod Health
pub mod Agents
pub mod Recovery
pub mod Reporting
pub mod Running
pub mod Scheduling
pub mod Access
pub mod Safeguards
