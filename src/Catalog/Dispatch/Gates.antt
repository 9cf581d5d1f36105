-- ===== src/Catalog/Dispatch/Gates.antt =====
-- internal/catalog/dispatch.go: what AdmitStart decides, and what it leaves unchanged.
use opensourcebackup.Prelude.{
  Bool, List, Option, Option-cases, [], ap, arith, bit, count_where, count_where-le, false,
  if◌then◌else◌, inl, inr, is_none, none, some, true, ℕ, ◌++◌, ◌+◌, ◌∙◌, ◌∷◌, ◌≡◌,
}
use opensourcebackup.Catalog.Dispatch.Guard.{
  Database, DispatchDecision, DispatchError, Stage, admit_start, health_dispatch_block_reason,
  occupies, occupies_agent, occupies_repository,
}
use opensourcebackup.Catalog.Dispatch.Limits.{DispatchLimits, at_least, normalized}
use opensourcebackup.Catalog.Jobs.Rows.{set_running}
use opensourcebackup.Catalog.Jobs.Statements.{on_job}
use opensourcebackup.Catalog.Models.{
  BackupJob, BackupPolicy, Result, err, is_pending, job_id, ok, pending, policy_key,
}
use opensourcebackup.Catalog.OperationState.{
  BlockReason, active, agent_concurrency_limit, derive_health_state, dispatch_block_reason,
  global_concurrency_limit, repository_concurrency_limit,
}
use opensourcebackup.Catalog.Systems.{System, system_key}
use opensourcebackup.Prelude.Table.{Unique, count_where-key, find, hits, update_where}

abbrev pub no_faults : Stage → Bool
no_faults _ = false

abbrev pub is_admitted : Result DispatchError DispatchDecision → Bool
is_admitted (ok d) = d.allowed
is_admitted (err _) = false

abbrev reasons : Option BlockReason → List BlockReason
reasons none = []
reasons (some r) = r ∷ []

abbrev full : Bool → BlockReason → List BlockReason
full closed reason = if closed then reason ∷ [] else []

-- Every reason to hold the job back, in the order of priority that the comment of AdmitStart gives.
abbrev pub block_reasons :
    DispatchLimits → ℕ → Database → BackupJob → Option ℕ → System → List BlockReason
block_reasons limits now db job repo_id system =
    reasons (dispatch_block_reason system.operation_state)
    ++ (reasons (health_dispatch_block_reason (derive_health_state system.last_seen now))
        ++ (full (at_least (count_where occupies db.jobs) limits.global) global_concurrency_limit
            ++ (elim repo_id [
              | none ↦ []
              | some repo ↦
                  full
                    (at_least (count_where (occupies_repository db.policies repo) db.jobs)
                      limits.per_repository)
                    repository_concurrency_limit
            ]
                ++ full
                    (at_least (count_where (occupies_agent job.system_id) db.jobs) limits.per_agent)
                    agent_concurrency_limit)))

abbrev pub first_reason : List BlockReason → Option BlockReason
first_reason [] = none
first_reason (r ∷ _) = some r

-- Decided by the list of reasons.
abbrev pub Decides : List BlockReason → Result DispatchError DispatchDecision → Type 0
Decides rs (ok d) = (d.reason ≡ first_reason rs) × (d.allowed ≡ is_none (first_reason rs))
Decides rs (err _) = ⊥

module _ (limits : DispatchLimits) (id now db_now : ℕ) (db : Database) where
  pending_rows :
      (job : BackupJob)
      → Unique job_id db.jobs
      → find job_id id db.jobs ≡ some job
      → job.status ≡ pending
      → count_where (on_job id is_pending) db.jobs ≡ 1
  pending_rows job u h p =
      count_where-key job_id id (λ j. is_pending j.status) db.jobs u
      ∙ ap (hits job_id (λ j. is_pending j.status)) h
      ∙ ap (λ s. bit (is_pending s)) p

  -- Where job keys are distinct and no statement fails technically, a pending job whose policy and
  -- system exist is decided: it is blocked with the first reason of the list, and admitted if the
  -- list is empty.
  pub admit_start-reason :
      (job : BackupJob) (policy : BackupPolicy) (system : System)
      → Unique job_id db.jobs
      → find job_id id db.jobs ≡ some job
      → find policy_key job.policy_id db.policies ≡ some policy
      → find system_key job.system_id db.systems ≡ some system
      → job.status ≡ pending
      → Decides
          (block_reasons limits now db job policy.repository_id system)
          (admit_start no_faults limits id now db_now db).0
  unfolding admit_start
  admit_start-reason job policy system u hj hp hs p = ground (arith, pending_rows job u hj p)

-- What an admission leaves of the database.
pub record Admitted (limits : DispatchLimits) (id now db_now : ℕ) (db db' : Database)
    (d : DispatchDecision) (job : BackupJob) (policy : BackupPolicy) (system : System)
    : Type 0 where
  pub job_found : find job_id id db.jobs ≡ some job
  pub policy_found : find policy_key job.policy_id db.policies ≡ some policy
  pub system_found : find system_key job.system_id db.systems ≡ some system
  pub was_pending : job.status ≡ pending
  pub db_after :
      db' ≡ record db { jobs = update_where (on_job id is_pending) (set_running db_now) db.jobs }
  pub agent_counted : d.running_count ≡ count_where (occupies_agent job.system_id) db.jobs + 1
  pub global_counted : d.global_running ≡ count_where occupies db.jobs + 1
  pub no_reason : block_reasons limits now db job policy.repository_id system ≡ []

module _ (faults : Stage → Bool) (limits : DispatchLimits) (id now db_now : ℕ) (db : Database) where
  -- Whatever does not end in an admission, so a blocked job, an error of the store or a technical
  -- failure at any statement, leaves the database as it was.
  pub admit_start-unchanged :
      is_admitted (admit_start faults limits id now db_now db).0 ≡ false
      → (admit_start faults limits id now db_now db).1 ≡ db
  unfolding admit_start
  admit_start-unchanged h = ground arith

  -- An admitted job was pending.
  pub admit_start-Admitted :
      (d : DispatchDecision) (db' : Database)
      → admit_start faults limits id now db_now db ≡ (ok d, db')
      → d.allowed ≡ true
      → (job : BackupJob) × (policy : BackupPolicy) × (system : System) × Admitted limits id now
          db_now db db' d job policy system
  unfolding admit_start
  admit_start-Admitted d db' e h = elim (Option-cases (find job_id id db.jobs)) [
    | inl missing ↦ absurd (ground arith)
    | inr (job, hj) ↦ elim (Option-cases (find policy_key job.policy_id db.policies)) [
      | inl missing ↦ absurd (ground arith)
      | inr (policy, hp) ↦ elim (Option-cases (find system_key job.system_id db.systems)) [
        | inl missing ↦ absurd (ground arith)
        | inr (system, hs) ↦ (job, policy, system, ground arith)
      ]
    ]
  ]

module _ (raw : DispatchLimits) (now : ℕ) (db : Database) (job : BackupJob) (system : System) where
  no_reasons :
      (repo_id : Option ℕ)
      → system.operation_state ≡ active
      → health_dispatch_block_reason (derive_health_state system.last_seen now) ≡ none
      → count_where occupies db.jobs ≡ 0
      → block_reasons (normalized raw) now db job repo_id system ≡ []
  unfolding normalized dispatch_block_reason
  no_reasons none act well idle = ground (
    arith,
    count_where-le (occupies_agent job.system_id) occupies (λ (j : BackupJob). ground arith)
        db.jobs,
  )
  no_reasons (some repo) act well idle = ground (
    arith,
    count_where-le (occupies_agent job.system_id) occupies (λ (j : BackupJob). ground arith)
        db.jobs,
    count_where-le (occupies_repository db.policies repo) occupies (λ (j : BackupJob). ground arith)
        db.jobs,
  )

Decides-admitted :
    (rs : List BlockReason) (r : Result DispatchError DispatchDecision)
    → rs ≡ []
    → Decides rs r
    → is_admitted r ≡ true
Decides-admitted rs (ok d) e h = ground arith
Decides-admitted rs (err x) e h = elim h [ ]

-- With the limits that NewDispatchGuardWithLimits keeps, whatever it was given, a pending job of an
-- active system whose health does not block is admitted while nothing runs, if job keys are
-- distinct, its policy exists and no statement fails technically.
pub admit_start-idle :
    (raw : DispatchLimits) (id now db_now : ℕ) (db : Database) (job : BackupJob)
    (policy : BackupPolicy) (system : System)
    → Unique job_id db.jobs
    → find job_id id db.jobs ≡ some job
    → find policy_key job.policy_id db.policies ≡ some policy
    → find system_key job.system_id db.systems ≡ some system
    → job.status ≡ pending
    → system.operation_state ≡ active
    → health_dispatch_block_reason (derive_health_state system.last_seen now) ≡ none
    → count_where occupies db.jobs ≡ 0
    → is_admitted (admit_start no_faults (normalized raw) id now db_now db).0 ≡ true
admit_start-idle raw id now db_now db job policy system u hj hp hs p act well idle =
    Decides-admitted _ _ (no_reasons raw now db job system policy.repository_id act well idle)
      (admit_start-reason (normalized raw) id now db_now db job policy system u hj hp hs p)
