-- ===== src/Api/AgentJobs.antt =====
-- internal/api/agent_jobs.go: the handlers that agents call. A failure of the database itself, which
-- every handler answers with 500, is modelled for the dispatch guard only.
pub mod Ownership
pub mod Claims
pub mod Isolation
pub mod Reports
use opensourcebackup.Catalog.Snapshots
use opensourcebackup.Prelude.{
  Bool, List, Option, String, if◌then◌else◌, is_some, none, some, str_eq, ℕ, ◌==◌,
}
use opensourcebackup.Api.Http.{
  Flow, Request, Response, error, error_with, finish, go, http_status_for_error, reply, require,
  require_body, require_ok, safe_error_message, require_true, stop, ◌>>=◌, ◌>>◌,
}
use opensourcebackup.Api.Server.{Server, Surroundings, with_jobs}
use opensourcebackup.Catalog.Dispatch.Guard.{
  Database, DispatchDecision, DispatchError, admit_start, repository_of, store, technical,
}
use opensourcebackup.Catalog.Dispatch.Limits.{DispatchLimits}
use opensourcebackup.Catalog.Jobs.Queries.{get_by_id, list_pending_by_system_id}
use opensourcebackup.Catalog.Jobs.Statements.{
  Jobs, Outcome, cancel_job, complete_job, fail_job, finalize_progress, start_job, update_progress,
}
use opensourcebackup.Catalog.Models.{BackupJob, JobProgress, Result, StoreError, err, job_id, ok}
use opensourcebackup.Catalog.Snapshots.{Snapshots}

pub record CompleteBody : Type 0 where
  pub engine_snapshot_id : String
  pub bytes_uploaded : ℕ
  pub paths : List String

pub data JobReply : Type 0 where
  fresh : BackupJob → JobReply
  dispatch_blocked : DispatchDecision → JobReply
  cancel_requested : Bool → String → JobReply
  pending_jobs : Jobs → JobReply
  no_content : JobReply

abbrev pub Answer : Type 0
Answer = Response JobReply × Server

abbrev pub refuse : Server → StoreError → Answer
refuse s e = (error (http_status_for_error e), s)

unfoldable pub list_agent_jobs : Option ℕ → Server → Response JobReply
list_agent_jobs none s = error 401
list_agent_jobs (some system_id) s =
    reply 200 (pending_jobs (list_pending_by_system_id system_id s.catalog.jobs))

unfoldable pub claim_job {ℓ} : {B : Type ℓ} → Request B → Server → Flow Answer BackupJob
claim_job r s = do
  system_id ← require r.system (error_with 401 "authorization required", s)
  job_key ← require r.path_id (error_with 400 "invalid job id", s)
  found_job ←
      require_ok (get_by_id job_key s.catalog.jobs)
        (λ e. (error_with (http_status_for_error e) (safe_error_message e), s))
  require_true (found_job.system_id == system_id) (error_with 404 "catalog: not found", s)
  go found_job

abbrev pub write_job : Result StoreError BackupJob → Server → Answer
write_job (ok j) s = (reply 200 (fresh j), s)
write_job (err e) s = refuse s e

unfoldable pub write_fresh_job : ℕ → Server → Answer
write_fresh_job id s = write_job (get_by_id id s.catalog.jobs) s

-- httpStatusForError of what AdmitStart returns.
abbrev pub dispatch_status : DispatchError → ℕ
dispatch_status (store e) = http_status_for_error e
dispatch_status (technical _) = 500

unfoldable pub write_decision :
    ℕ → Server → Result DispatchError DispatchDecision × Database → Answer
unfolding write_fresh_job
write_decision id s (err e, db) = (error (dispatch_status e), record s { catalog = db })
write_decision id s (ok d, db) =
    if d.allowed
    then write_fresh_job id (record s { catalog = db })
    else (reply 429 (dispatch_blocked d), record s { catalog = db })

-- A guarded statement, whose error ends the handler.
abbrev pub store_step : Outcome → Server → Flow Answer Server
store_step (ok _, jobs) s = go (with_jobs jobs s)
store_step (err e, jobs) s = stop (refuse (with_jobs jobs s) e)

-- The repository that the job's policy names, where there is a snapshot to register.
abbrev pub snapshot_repository : CompleteBody → BackupJob → Server → Option ℕ
snapshot_repository b j s =
    if str_eq b.engine_snapshot_id "" then none else repository_of s.catalog.policies j

abbrev pub unverified : String
unverified = "unverified"

module _ (env : Surroundings) where
  -- Without a guard the transition is the plain one; a blocked start is answered with 429.
  abbrev pub start_claimed : Option DispatchLimits → BackupJob → Server → Flow Answer Answer
  start_claimed none owned s = do
    s' ← store_step (start_job owned.id env.now s.catalog.jobs) s
    go (write_fresh_job owned.id s')
  start_claimed (some limits) owned s =
      go (
        write_decision owned.id s
          (admit_start env.faults limits owned.id env.now env.now s.catalog))

  unfoldable pub start_agent_job : Request (Unit {0}) → Server → Answer
  start_agent_job r s = finish (claim_job r s >>= λ owned. start_claimed env.dispatch owned s)

  abbrev pub register_at : Option ℕ → ℕ → CompleteBody → BackupJob → Server → Server
  register_at none system_id b j s = s
  register_at (some repo) system_id b j s = record s {
    snapshots =
        Snapshots.create env.new_id env.now
          record {
            id = 0;
            job_id = j.id;
            engine_snapshot_id = b.engine_snapshot_id;
            repository_id = repo;
            created_at = 0;
            hostname = some (env.uuid_text system_id);
            paths = b.paths;
            checksum_status = unverified;
          }
          s.snapshots;
  }

  -- Register the snapshot, only if the policy has a repository.
  unfoldable pub register_snapshot : ℕ → CompleteBody → BackupJob → Server → Server
  register_snapshot system_id b j s = register_at (snapshot_repository b j s) system_id b j s

  -- FinalizeProgress is best-effort: its error is logged only.
  abbrev pub complete_claimed : BackupJob → CompleteBody → Server → Flow Answer Answer
  complete_claimed owned b s = do
    s' ← store_step (complete_job owned.id b.bytes_uploaded env.now s.catalog.jobs) s
    let s'' = with_jobs (finalize_progress owned.id env.now s'.catalog.jobs).1 s'
    go (write_fresh_job owned.id (register_snapshot owned.system_id b owned s''))

  unfoldable pub complete_agent_job : Request CompleteBody → Server → Answer
  complete_agent_job r s = finish do
    owned ← claim_job r s
    b ← require_body r.body (λ c. (error c, s))
    complete_claimed owned b s

  unfoldable pub fail_agent_job : Request String → Server → Answer
  fail_agent_job r s = finish do
    owned ← claim_job r s
    summary ← require_body r.body (λ c. (error c, s))
    s' ← store_step (fail_job owned.id summary env.now s.catalog.jobs) s
    go (write_fresh_job owned.id s')

  unfoldable pub progress_agent_job : Request JobProgress → Server → Answer
  progress_agent_job r s = finish do
    owned ← claim_job r s
    p ← require_body r.body (λ c. (error c, s))
    s' ← store_step (update_progress owned.id p env.now s.catalog.jobs) s
    go (reply 204 no_content, s')

  unfoldable pub cancel_status_agent_job : Request (Unit {0}) → Server → Answer
  cancel_status_agent_job r s = finish do
    owned ← claim_job r s
    go (reply 200 (cancel_requested (is_some owned.cancel_requested_at) owned.cancel_reason), s)

  unfoldable pub cancelled_agent_job : Request (Unit {0}) → Server → Answer
  cancelled_agent_job r s = finish do
    owned ← claim_job r s
    s' ← store_step (cancel_job owned.id owned.cancel_reason env.now s.catalog.jobs) s
    go (write_fresh_job owned.id s')
