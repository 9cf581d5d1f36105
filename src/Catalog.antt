-- ===== src/Catalog.antt =====
-- internal/catalog: the records that the control plane keeps in PostgreSQL, and their stores.
pub mod Models
pub mod OperationState
pub mod Systems
pub mod Repositories
pub mod Snapshots
pub mod RestoreTests
pub mod Jobs
pub mod Dispatch
pub mod Policies
