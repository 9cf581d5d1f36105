-- ===== src/Catalog/Dispatch.antt =====
-- internal/catalog/dispatch.go: the guard that admits a pending job or leaves it pending.
pub mod Limits
pub mod Guard
pub mod Gates
pub mod Capacity
pub mod Slots
