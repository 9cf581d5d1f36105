-- ===== src/Catalog/Jobs.antt =====
-- internal/catalog/jobs.go: the statements of `pgJobStore` on the table backup_jobs. Each takes the
-- table and the database clock, and returns its result and the new table. A connection that fails
-- leaves the table as it was and is not modelled here (Catalog.Dispatch models it for its
-- transaction).
pub mod Rows
pub mod Statements
pub mod Queries
pub mod Transitions
pub mod Lifecycle
pub mod Reaper
