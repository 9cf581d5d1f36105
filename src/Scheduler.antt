-- ===== src/Scheduler.antt =====
-- internal/scheduler/scheduler.go: when policies run, and the jobs and restore tests that are created
-- then. The cron library, time.LoadLocation and fmt.Sscanf are arguments.
pub mod Window
pub mod Entries
pub mod Dispatch
pub mod Counts
pub mod Watch
