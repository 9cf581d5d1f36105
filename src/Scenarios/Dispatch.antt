-- ===== src/Scenarios/Dispatch.antt =====
-- The theorems on dispatch, where nothing runs at first.
use opensourcebackup.Prelude.{[], arith, count_where, none, refl, some, true, ℕ, ◌∷◌, ◌≡◌, ◌≢◌}
use opensourcebackup.Catalog.Dispatch.Capacity.{
  IsWithin, Reach-IsWithin, admit_start-admitted, dispatch, here, next,
}
use opensourcebackup.Catalog.Dispatch.Gates.{
  Decides, admit_start-idle, admit_start-reason, admit_start-unchanged, block_reasons, is_admitted,
  no_faults,
}
use opensourcebackup.Catalog.Dispatch.Guard.{
  Database, DispatchDecision, admit_start, health_dispatch_block_reason, occupies, occupies_agent,
  repository_of,
}
use opensourcebackup.Catalog.Dispatch.Limits.{DispatchLimits, normalized}
use opensourcebackup.Catalog.Jobs.Rows.{set_running}
use opensourcebackup.Catalog.Models.{BackupJob, job_id, ok, pending, running}
use opensourcebackup.Catalog.OperationState.{derive_health_state, dispatch_block_reason, online}
use opensourcebackup.Prelude.Int.{negsuc, pos}
use opensourcebackup.Prelude.Table.{Unique, find, update_where}
use opensourcebackup.Scenarios.Data.{a_policy, a_system, finished, quiet_database, waiting}

abbrev guard_limits : DispatchLimits
guard_limits = normalized (record { global = pos 2; per_repository = pos 1; per_agent = pos 1 })

quiet-Unique : Unique job_id quiet_database.jobs
unfolding find
quiet-Unique = (refl, (refl, tt))

quiet-IsWithin : IsWithin guard_limits quiet_database
unfolding repository_of normalized find
quiet-IsWithin = record {
  unique = quiet-Unique;
  global = omega arith;
  agent = λ a. ground arith;
  repository = λ r. ground arith;
}

Reach-IsWithin_example :
    IsWithin guard_limits (admit_start no_faults guard_limits 1 2_000 2_001 quiet_database).1
Reach-IsWithin_example =
    Reach-IsWithin (next here (dispatch quiet_database no_faults 1 2_000 2_001)) quiet-IsWithin

admit_start-reason_example :
    Decides
      (block_reasons guard_limits 2_000 quiet_database waiting (some 30) a_system)
      (admit_start no_faults guard_limits 1 2_000 2_001 quiet_database).0
unfolding find
admit_start-reason_example =
    admit_start-reason guard_limits 1 2_000 2_001 quiet_database waiting a_policy a_system
      quiet-Unique refl refl refl refl

admit_start-unchanged_example :
    (admit_start no_faults guard_limits 3 2_000 2_001 quiet_database).1 ≡ quiet_database
unfolding admit_start find
admit_start-unchanged_example =
    admit_start-unchanged no_faults guard_limits 3 2_000 2_001 quiet_database refl

admit_start-idle_example :
    is_admitted
      (admit_start no_faults
        (normalized (record { global = pos 0; per_repository = negsuc 4; per_agent = pos 0 }))
        1
        2_000
        2_001
        quiet_database).0
    ≡ true
unfolding find health_dispatch_block_reason derive_health_state
admit_start-idle_example =
    admit_start-idle (record { global = pos 0; per_repository = negsuc 4; per_agent = pos 0 }) 1
      2_000 2_001 quiet_database waiting a_policy a_system quiet-Unique refl refl refl refl refl
      refl refl

abbrev first_decision : DispatchDecision
first_decision = record {
  allowed = true;
  reason = none;
  running_count = 1;
  limit = pos 1;
  global_running = 1;
  global_limit = pos 2;
  repo_running = 1;
  repo_limit = pos 1;
  repository_id = some 30;
  health_state = online;
  last_seen_age_sec = pos 0;
}

abbrev busy_database : Database
busy_database = record quiet_database {
  jobs = record waiting { status = running; started_at = some 2_001 } ∷ finished ∷ [];
}

first_admission :
    admit_start no_faults guard_limits 1 2_000 2_001 quiet_database
    ≡ (ok first_decision, busy_database)
unfolding admit_start find update_where set_running normalized dispatch_block_reason
    health_dispatch_block_reason derive_health_state repository_of
first_admission = refl

admit_start-admitted_example :
    (job : BackupJob) × (find job_id 1 quiet_database.jobs ≡ some job)
    × (job.status ≡ pending)
    × (find job_id 1 busy_database.jobs ≡ some (set_running 2_001 job))
    × ((k : ℕ) → k ≢ 1 → find job_id k busy_database.jobs ≡ find job_id k quiet_database.jobs)
    × (1 ≡ count_where occupies busy_database.jobs)
    × (1 ≡ count_where (occupies_agent job.system_id) busy_database.jobs)
admit_start-admitted_example =
    admit_start-admitted no_faults guard_limits 1 2_000 2_001 quiet_database first_decision
      busy_database quiet-Unique first_admission refl
