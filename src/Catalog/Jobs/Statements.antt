-- ===== src/Catalog/Jobs/Statements.antt =====
-- internal/catalog/jobs.go: the operations of `pgJobStore` that change the table.
use opensourcebackup.Prelude.{
  Bool, List, String, [], count_where, if◌then◌else◌, ltb, none, some, true, ℕ, ◌&&◌, ◌++◌, ◌+◌,
  ◌==◌, ◌∷◌,
}
use opensourcebackup.Catalog.Jobs.Rows.{
  is_open, is_silent, is_unclaimed, pending_reason, running_reason, set_cancel_requested,
  set_cancelled, set_failed, set_full, set_progress, set_running, set_success,
}
use opensourcebackup.Catalog.Models.{
  BackupJob, JobProgress, JobStatus, JobType, Result, StoreError, backup, err, illegal_transition,
  is_pending, is_running, job_id, not_found, ok, pending, still_referenced, store_refused, unset,
  DeleteError, Result,
}
use opensourcebackup.Prelude.Table.{delete_where, find, update_where}

abbrev pub Jobs : Type 0
Jobs = List BackupJob

-- What a statement returns, and the table that it leaves.
abbrev pub Outcome : Type 0
Outcome = Result StoreError (Unit {0}) × Jobs

-- WHERE id = $1 AND the guard on the status.
abbrev pub on_job : ℕ → (JobStatus → Bool) → BackupJob → Bool
on_job id allowed j = job_id j == id && allowed j.status

-- The status query of a transition that matched no row.
unfoldable pub status_check : ℕ → Jobs → Result StoreError (Unit {0})
status_check id jobs = elim (find job_id id jobs) [
  | none ↦ err not_found
  | some j ↦ err (illegal_transition j.status)
]

unfoldable pub apply_transition : ℕ → (JobStatus → Bool) → (BackupJob → BackupJob) → Jobs → Outcome
apply_transition id allowed set jobs =
    let rows = count_where (on_job id allowed) jobs in
    let jobs' = update_where (on_job id allowed) set jobs in
    if ltb 0 rows then (ok tt, jobs') else (status_check id jobs', jobs')

unfoldable pub start_job : ℕ → ℕ → Jobs → Outcome
start_job id now = apply_transition id is_pending (set_running now)

unfoldable pub complete_job : ℕ → ℕ → ℕ → Jobs → Outcome
complete_job id bytes_uploaded now = apply_transition id is_running (set_success bytes_uploaded now)

unfoldable pub fail_job : ℕ → String → ℕ → Jobs → Outcome
fail_job id error_summary now = apply_transition id is_open (set_failed error_summary now)

unfoldable pub cancel_job : ℕ → String → ℕ → Jobs → Outcome
cancel_job id reason now = apply_transition id is_running (set_cancelled reason now)

abbrev pub any_status : JobStatus → Bool
any_status _ = true

-- An UPDATE whose zero rows are reported as ErrNotFound.
unfoldable pub update_or_missing : ℕ → (JobStatus → Bool) → (BackupJob → BackupJob) → Jobs → Outcome
update_or_missing id allowed set jobs =
    let rows = count_where (on_job id allowed) jobs in
    let jobs' = update_where (on_job id allowed) set jobs in
    if ltb 0 rows then (ok tt, jobs') else (err not_found, jobs')

unfoldable pub update_progress : ℕ → JobProgress → ℕ → Jobs → Outcome
update_progress id p now = update_or_missing id any_status (set_progress p now)

unfoldable pub finalize_progress : ℕ → ℕ → Jobs → Outcome
finalize_progress id now = update_or_missing id any_status (set_full now)

unfoldable pub request_cancel : ℕ → String → ℕ → Jobs → Outcome
request_cancel id reason now = update_or_missing id is_open (set_cancel_requested reason now)

-- The unguarded Update: every column that its SET clause names.
unfoldable pub update : BackupJob → Jobs → Outcome
update j = update_or_missing j.id any_status (λ old. record old {
  started_at = j.started_at;
  finished_at = j.finished_at;
  status = j.status;
  bytes_scanned = j.bytes_scanned;
  bytes_uploaded = j.bytes_uploaded;
  error_summary = j.error_summary;
  raw_output = j.raw_output;
})

-- The foreign key of the snapshots refuses a job that has some; `has_snapshots` is their table.
unfoldable pub delete : (ℕ → Bool) → ℕ → Jobs → Result DeleteError (Unit {0}) × Jobs
delete has_snapshots id jobs =
    let rows = count_where (λ j. job_id j == id) jobs in
    let jobs' = delete_where (λ j. job_id j == id) jobs in
    if has_snapshots id
    then (err still_referenced, jobs)
    else if ltb 0 rows
    then (ok tt, jobs')
    else (err (store_refused not_found), jobs')

-- FailStaleJobs: the two updates, each with the database clock of its statement, and the number of
-- jobs that they failed.
unfoldable pub fail_stale_jobs : ℕ → ℕ → ℕ → ℕ → ℕ → ℕ → Jobs → ℕ × Jobs
fail_stale_jobs progress_grace start_grace pending_grace now db_now db_later jobs =
    let running_rows = count_where (is_silent progress_grace start_grace now) jobs in
    let jobs' =
      update_where (is_silent progress_grace start_grace now) (set_failed running_reason db_now)
        jobs in
    let pending_rows = count_where (is_unclaimed pending_grace now) jobs' in
    (
      running_rows + pending_rows,
      update_where (is_unclaimed pending_grace now) (set_failed pending_reason db_later) jobs',
    )

abbrev default_type : JobType → JobType
default_type unset = backup
default_type t = t

abbrev pub no_progress : JobProgress
no_progress = record {
  phase = "";
  percent = 0;
  bytes_done = 0;
  bytes_total = 0;
  files_done = 0;
  files_total = 0;
  throughput_bps = 0;
}

-- The job that the dispatch functions of internal/scheduler/scheduler.go hand to Create: four fields
-- are set, and the others have Go's zero values.
unfoldable pub pending_job : ℕ → ℕ → JobType → BackupJob
pending_job system_id policy_id type = record {
  id = 0;
  system_id = system_id;
  policy_id = policy_id;
  type = type;
  started_at = none;
  finished_at = none;
  status = pending;
  bytes_scanned = none;
  bytes_uploaded = none;
  error_summary = none;
  raw_output = none;
  created_at = 0;
  progress = no_progress;
  last_progress_at = none;
  cancel_requested_at = none;
  cancel_reason = "";
}

-- Create: the INSERT takes the columns that it names, the key and the time from the database, and
-- the defaults for the rest.
unfoldable pub create : ℕ → ℕ → BackupJob → Jobs → BackupJob × Jobs
create new_id db_now j jobs =
    let row : BackupJob = record j {
      id = new_id;
      type = default_type j.type;
      created_at = db_now;
      progress = no_progress;
      last_progress_at = none;
      cancel_requested_at = none;
      cancel_reason = "";
    } in
    (row, jobs ++ row ∷ [])
