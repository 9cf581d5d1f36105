-- ===== src/Health.antt =====
-- internal/health: the backup health score and the alerts that are derived from it.
pub mod Digits
pub mod Score
pub mod Rules
pub mod Tallies
pub mod Penalties
pub mod Alerts
pub mod Ordering
