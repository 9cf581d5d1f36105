-- ===== src/Agent.antt =====
-- internal/agent: the agent that polls the control plane, runs the jobs and reports how they ended.
pub mod Client
pub mod Outbox
pub mod Delivery
pub mod Execution
pub mod Restic
