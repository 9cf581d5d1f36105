-- ===== src/Catalog/Dispatch/Guard.antt =====
-- internal/catalog/dispatch.go: AdmitStart. Each statement of the transaction may fail technically:
-- `faults` says which do. A transaction that does not commit leaves the database as it was.
use opensourcebackup.Prelude.{
  Bool, List, Option, count_where, false, if◌then◌else◌, leb, ltb, none, some, true, ℕ, ◌&&◌, ◌+◌,
  ◌-◌, ◌/◌, ◌==◌,
}
use opensourcebackup.Catalog.Dispatch.Limits.{DispatchLimits, at_least}
use opensourcebackup.Catalog.Jobs.Rows.{set_running}
use opensourcebackup.Catalog.Jobs.Statements.{Jobs, on_job}
use opensourcebackup.Catalog.Models.{
  BackupJob, BackupPolicy, Result, StoreError, err, illegal_transition, is_pending, is_running,
  job_id, not_found, ok, policy_key, second,
}
use opensourcebackup.Catalog.OperationState.{
  BlockReason, HealthState, agent_concurrency_limit, derive_health_state, dispatch_block_reason,
  global_concurrency_limit, offline, repository_concurrency_limit, system_health_unknown,
  system_offline, unknown,
}
use opensourcebackup.Catalog.Systems.{System, system_key}
use opensourcebackup.Prelude.Int.{pos, sub_ℕ, ℤ}
use opensourcebackup.Prelude.Table.{find, update_where}

pub record Database : Type 0 where
  pub jobs : Jobs
  pub policies : List BackupPolicy
  pub systems : List System

-- The places where AdmitStart returns a wrapped technical error.
pub data Stage : Type 0 where
  begin load_job load_system_state commit_blocked advisory_lock : Stage
  count_global_running count_repository_running count_agent_running : Stage
  start_row commit_admit : Stage

pub data DispatchError : Type 0 where
  store : StoreError → DispatchError
  technical : Stage → DispatchError

pub record DispatchDecision : Type 0 where
  pub allowed : Bool
  pub reason : Option BlockReason
  pub running_count : ℕ
  pub limit : ℤ
  pub global_running : ℕ
  pub global_limit : ℤ
  pub repo_running : ℕ
  pub repo_limit : ℤ
  pub repository_id : Option ℕ
  pub health_state : HealthState
  pub last_seen_age_sec : ℤ

infixl 5 ◌>>=◌ ◌>>◌
abbrev pub ◌>>=◌ {ℓ κ} :
    {A : Type ℓ} {B : Type κ}
    → Result DispatchError A
    → (A → Result DispatchError B)
    → Result DispatchError B
ok a >>= f = f a
err e >>= f = err e

abbrev pub ◌>>◌ {ℓ} :
    {B : Type ℓ} → Result DispatchError (Unit {0}) → Result DispatchError B → Result DispatchError B
m >> k = m >>= λ _. k

abbrev pub or_else {ℓ} : {A : Type ℓ} → Option A → DispatchError → Result DispatchError A
or_else none e = err e
or_else (some a) e = ok a

-- A statement that is tried before its result is read.
abbrev pub attempt : (Stage → Bool) → Stage → Result DispatchError (Unit {0})
attempt faults s = if faults s then err (technical s) else ok tt

abbrev pub ensure : Bool → DispatchError → Result DispatchError (Unit {0})
ensure true e = ok tt
ensure false e = err e

unfoldable pub health_dispatch_block_reason : HealthState → Option BlockReason
health_dispatch_block_reason offline = some system_offline
health_dispatch_block_reason unknown = some system_health_unknown
health_dispatch_block_reason _ = none

-- JOIN backup_policies p ON p.id = j.policy_id, and p.repository_id = $1.
unfoldable pub repository_of : List BackupPolicy → BackupJob → Option ℕ
repository_of policies j = elim (find policy_key j.policy_id policies) [
  | none ↦ none
  | some p ↦ p.repository_id
]

abbrev is_id : ℕ → Option ℕ → Bool
is_id i none = false
is_id i (some k) = k == i

-- The rows that each count(*) counts.
abbrev pub occupies : BackupJob → Bool
occupies j = is_running j.status

abbrev pub occupies_repository : List BackupPolicy → ℕ → BackupJob → Bool
occupies_repository policies repo_id j =
    is_running j.status && is_id repo_id (repository_of policies j)

abbrev pub occupies_agent : ℕ → BackupJob → Bool
occupies_agent system_id j = j.system_id == system_id && is_running j.status

-- int64(time.Since(t).Seconds()): whole seconds, towards zero, and negative for a time ahead. The
-- code reads the clock again here; the model uses one reading.
abbrev age_seconds : Option ℕ → ℕ → ℤ
age_seconds none now = pos 0
age_seconds (some t) now =
    if leb t now then pos ((now - t) / second) else sub_ℕ 0 ((t - now) / second)

-- A decision before `base` stamps the metadata.
abbrev pub bare : Bool → Option BlockReason → ℕ → ℕ → ℕ → DispatchDecision
bare allowed reason running_count global_running repo_running = record {
  allowed = allowed;
  reason = reason;
  running_count = running_count;
  limit = pos 0;
  global_running = global_running;
  global_limit = pos 0;
  repo_running = repo_running;
  repo_limit = pos 0;
  repository_id = none;
  health_state = unknown;
  last_seen_age_sec = pos 0;
}

module _ (faults : Stage → Bool) (limits : DispatchLimits) (id now db_now : ℕ) (db : Database)
    (job : BackupJob) (repo_id : Option ℕ) (system : System) where
  base : DispatchDecision → DispatchDecision
  base d = record d {
    limit = limits.per_agent;
    global_limit = limits.global;
    repo_limit = limits.per_repository;
    repository_id = repo_id;
    health_state = derive_health_state system.last_seen now;
    last_seen_age_sec = age_seconds system.last_seen now;
  }

  abbrev Reply : Type 0
  Reply = Result DispatchError (DispatchDecision × Jobs)

  -- Commit with the job left pending.
  blocked : BlockReason → ℕ → ℕ → ℕ → Reply
  unfolding base
  blocked reason running_count global_running repo_running = do
    attempt faults commit_blocked
    ok (base (bare false (some reason) running_count global_running repo_running), db.jobs)

  -- 9. UPDATE … WHERE id = $1 AND status = 'pending', and commit.
  admit : ℕ → ℕ → ℕ → Reply
  unfolding base
  admit agent_running global_running repo_running = do
    attempt faults start_row
    ensure (ltb 0 (count_where (on_job id is_pending) db.jobs))
        (store (illegal_transition job.status))
    attempt faults commit_admit
    ok (
      base (bare true none (agent_running + 1) (global_running + 1) (repo_running + 1)),
      update_where (on_job id is_pending) (set_running db_now) db.jobs,
    )

  -- 8. The agent gate.
  agent_gate : ℕ → ℕ → Reply
  unfolding blocked admit
  agent_gate global_running repo_running = do
    attempt faults count_agent_running
    let agent_running = count_where (occupies_agent job.system_id) db.jobs
    if at_least agent_running limits.per_agent
        then blocked agent_concurrency_limit agent_running global_running repo_running
        else admit agent_running global_running repo_running

  -- 7. The repository gate, skipped when the policy has no repository.
  repository_gate : Option ℕ → ℕ → Reply
  unfolding agent_gate blocked
  repository_gate none global_running = agent_gate global_running 0
  repository_gate (some repo) global_running = do
    attempt faults count_repository_running
    let repo_running = count_where (occupies_repository db.policies repo) db.jobs
    if at_least repo_running limits.per_repository
        then blocked repository_concurrency_limit 0 global_running repo_running
        else agent_gate global_running repo_running

  -- 5 and 6. The advisory lock and the global gate.
  global_gate : Reply
  unfolding repository_gate blocked
  global_gate = do
    attempt faults advisory_lock
    attempt faults count_global_running
    let global_running = count_where occupies db.jobs
    if at_least global_running limits.global
        then blocked global_concurrency_limit 0 global_running 0
        else repository_gate repo_id global_running

  -- 4. The health gate.
  health_gate : Option BlockReason → Reply
  unfolding global_gate blocked
  health_gate (some reason) = blocked reason 0 0 0
  health_gate none = global_gate

  -- 3. The operation-state gate.
  operation_gate : Option BlockReason → Reply
  unfolding health_gate blocked
  operation_gate (some reason) = blocked reason 0 0 0
  operation_gate none =
      health_gate (health_dispatch_block_reason (derive_health_state system.last_seen now))

-- 1 and 2. The job with its policy, its status, and the system's state.
admission :
    (Stage → Bool)
    → DispatchLimits
    → ℕ
    → ℕ
    → ℕ
    → Database
    → Result DispatchError (DispatchDecision × Jobs)
unfolding operation_gate
admission faults limits id now db_now db = do
  attempt faults begin
  attempt faults load_job
  job ← or_else (find job_id id db.jobs) (store not_found)
  policy ← or_else (find policy_key job.policy_id db.policies) (store not_found)
  ensure (is_pending job.status) (store (illegal_transition job.status))
  attempt faults load_system_state
  system ← or_else (find system_key job.system_id db.systems) (technical load_system_state)
  operation_gate faults limits id now db_now db job policy.repository_id system
      (dispatch_block_reason system.operation_state)

-- A transaction that ends in an error is rolled back.
abbrev settle :
    Database
    → Result DispatchError (DispatchDecision × Jobs)
    → Result DispatchError DispatchDecision × Database
settle db (err e) = (err e, db)
settle db (ok (d, jobs)) = (ok d, record db { jobs = jobs })

unfoldable pub admit_start :
    (Stage → Bool)
    → DispatchLimits
    → ℕ
    → ℕ
    → ℕ
    → Database
    → Result DispatchError DispatchDecision × Database
unfolding admission
admit_start faults limits id now db_now db = settle db (admission faults limits id now db_now db)
