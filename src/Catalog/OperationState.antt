-- ===== src/Catalog/OperationState.antt =====
-- internal/catalog/operation_state.go: the state that an administrator sets, and the health that is
-- derived from the last heartbeat.
use opensourcebackup.Prelude.{
  ℕ, ◌+◌, ◌*◌, Bool, true, false, Option, none, some, leb, if◌then◌else◌,
}
use opensourcebackup.Catalog.Models.{minute}

pub data OperationState : Type 0 where
  active maintenance draining suspended : OperationState

-- The block reasons of dispatch.go, in the order of its constants.
pub data BlockReason : Type 0 where
  global_concurrency_limit repository_concurrency_limit agent_concurrency_limit : BlockReason
  system_maintenance system_draining system_suspended : BlockReason
  system_offline system_health_unknown : BlockReason

unfoldable pub allows_new_jobs : OperationState → Bool
allows_new_jobs active = true
allows_new_jobs _ = false

-- `none` stands for the empty reason.
unfoldable pub dispatch_block_reason : OperationState → Option BlockReason
dispatch_block_reason maintenance = some system_maintenance
dispatch_block_reason draining = some system_draining
dispatch_block_reason suspended = some system_suspended
dispatch_block_reason active = none

pub data HealthState : Type 0 where
  online degraded offline unknown : HealthState

abbrev pub health_online_within : ℕ
health_online_within = 2 * minute

abbrev pub health_degraded_within : ℕ
health_degraded_within = 15 * minute

-- `now.Sub(*lastSeen) <= d` compares a signed age, so it is written without a subtraction.
unfoldable pub derive_health_state : Option ℕ → ℕ → HealthState
derive_health_state none now = unknown
derive_health_state (some last_seen) now =
    if leb now (last_seen + health_online_within)
    then online
    else if leb now (last_seen + health_degraded_within)
    then degraded
    else offline
