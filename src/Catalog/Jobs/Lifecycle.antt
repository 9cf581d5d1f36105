-- ===== src/Catalog/Jobs/Lifecycle.antt =====
-- internal/catalog/jobs.go: the life of a job under any sequence of the sanctioned operations, by
-- any number of callers.
use mathlib.Core.Option
use opensourcebackup.Prelude.{
  Bool, List, Option, String, [], ap, arith, if◌then◌else◌, inl, none, refl, some, true, ℕ, ◌∙◌,
  ◌∷◌, ◌≡◌, ◌⊎◌,
}
use opensourcebackup.Catalog.Jobs.Rows.{
  is_open, is_silent, is_unclaimed, pending_reason, running_reason, set_cancel_requested,
  set_cancelled, set_failed, set_full, set_progress, set_running, set_success,
}
use opensourcebackup.Catalog.Jobs.Statements.{
  Jobs, any_status, apply_transition, create, fail_stale_jobs, finalize_progress, on_job,
  pending_job, request_cancel, update_or_missing, update_progress,
}
use opensourcebackup.Catalog.Jobs.Transitions.{
  Transition, cancel, complete, edge, fail, guard, set_clause, set_clause-id, start, transit,
  transit-apply,
}
use opensourcebackup.Catalog.Models.{
  BackupJob, JobProgress, JobStatus, JobType, is_terminal, job_id,
}
use opensourcebackup.Prelude.Table.{find, find-append, find-update_where}

-- The statements that the lifecycle comment of JobStore sanctions, the progress and cancel updates,
-- the reaper, and the insertion of a pending job by the scheduler.
pub data Op : Type 0 where
  transition : Transition → ℕ → ℕ → Op
  progress : ℕ → JobProgress → ℕ → Op
  finalize : ℕ → ℕ → Op
  request : ℕ → String → ℕ → Op
  reap : ℕ → ℕ → ℕ → ℕ → ℕ → ℕ → Op
  insert : ℕ → ℕ → ℕ → ℕ → JobType → Op

unfoldable pub step : Op → Jobs → Jobs
step (transition t id now) jobs = (transit t id now jobs).1
step (progress id p now) jobs = (update_progress id p now jobs).1
step (finalize id now) jobs = (finalize_progress id now jobs).1
step (request id reason now) jobs = (request_cancel id reason now jobs).1
step (reap pg sg wg now db_now db_later) jobs =
    (fail_stale_jobs pg sg wg now db_now db_later jobs).1
step (insert new_id now system_id policy_id type) jobs =
    (create new_id now (pending_job system_id policy_id type) jobs).1

unfoldable pub run : List Op → Jobs → Jobs
run [] jobs = jobs
run (op ∷ ops) jobs = run ops (step op jobs)

-- What one operation does to one row.
abbrev when : (BackupJob → Bool) → (BackupJob → BackupJob) → BackupJob → BackupJob
when p f j = if p j then f j else j

abbrev row_step : Op → BackupJob → BackupJob
row_step (transition t id now) = when (on_job id (guard t)) (set_clause t now)
row_step (progress id p now) = when (on_job id any_status) (set_progress p now)
row_step (finalize id now) = when (on_job id any_status) (set_full now)
row_step (request id reason now) = when (on_job id is_open) (set_cancel_requested reason now)
row_step (reap pg sg wg now db_now db_later) = λ j.
    when (is_unclaimed wg now) (set_failed pending_reason db_later)
      (when (is_silent pg sg now) (set_failed running_reason db_now) j)
row_step (insert _ _ _ _ _) = λ j. j

find-apply_transition :
    (allowed : JobStatus → Bool) (set : BackupJob → BackupJob) (id : ℕ) (jobs : Jobs)
    → ((j : BackupJob) → job_id (set j) ≡ job_id j)
    → (k : ℕ)
    → find job_id k (apply_transition id allowed set jobs).1
      ≡ Option.map (when (on_job id allowed) set) (find job_id k jobs)
unfolding apply_transition
find-apply_transition allowed set id jobs keeps k =
    ground (arith, find-update_where job_id (on_job id allowed) set keeps k jobs)

find-update_or_missing :
    (allowed : JobStatus → Bool) (set : BackupJob → BackupJob) (id : ℕ) (jobs : Jobs)
    → ((j : BackupJob) → job_id (set j) ≡ job_id j)
    → (k : ℕ)
    → find job_id k (update_or_missing id allowed set jobs).1
      ≡ Option.map (when (on_job id allowed) set) (find job_id k jobs)
unfolding update_or_missing
find-update_or_missing allowed set id jobs keeps k =
    ground (arith, find-update_where job_id (on_job id allowed) set keeps k jobs)

map-some :
    (f g : BackupJob → BackupJob) (o : Option BackupJob)
    → Option.map f (Option.map g o) ≡ Option.map (λ j. f (g j)) o
map-some f g none = refl
map-some f g (some j) = refl

-- A row that is there stays there, changed as `row_step` says.
pub find-step :
    (op : Op) (jobs : Jobs) (k : ℕ) (j : BackupJob)
    → find job_id k jobs ≡ some j
    → find job_id k (step op jobs) ≡ some (row_step op j)
unfolding step update_progress finalize_progress request_cancel fail_stale_jobs create set_progress
    set_full set_cancel_requested set_failed
find-step (transition t id now) jobs k j h =
    ap (λ r. find job_id k r.1) (transit-apply t id now jobs)
    ∙ find-apply_transition (guard t) (set_clause t now) id jobs (set_clause-id t now) k
    ∙ rw h
find-step (progress id p now) jobs k j h =
    find-update_or_missing any_status (set_progress p now) id jobs (λ _. refl) k ∙ rw h
find-step (finalize id now) jobs k j h =
    find-update_or_missing any_status (set_full now) id jobs (λ _. refl) k ∙ rw h
find-step (request id reason now) jobs k j h =
    find-update_or_missing is_open (set_cancel_requested reason now) id jobs (λ _. refl) k ∙ rw h
find-step (reap pg sg wg now db_now db_later) jobs k j h =
    find-update_where job_id (is_unclaimed wg now) (set_failed pending_reason db_later) (λ _. refl)
      k _
    ∙ ap (Option.map (when (is_unclaimed wg now) (set_failed pending_reason db_later))) (
        find-update_where job_id (is_silent pg sg now) (set_failed running_reason db_now)
          (λ _. refl) k jobs)
    ∙ rw h
find-step (insert new_id now s p t) jobs k j h = find-append job_id k jobs _ h

-- The columns that tell how a job ended.
pub record SameOutcome (j k : BackupJob) : Type 0 where
  pub status : k.status ≡ j.status
  pub started_at : k.started_at ≡ j.started_at
  pub finished_at : k.finished_at ≡ j.finished_at
  pub bytes_uploaded : k.bytes_uploaded ≡ j.bytes_uploaded
  pub error_summary : k.error_summary ≡ j.error_summary

row_step-edge :
    (op : Op) (j : BackupJob)
    → ((row_step op j).status ≡ j.status) ⊎ (edge j.status (row_step op j).status ≡ true)
unfolding set_running set_success set_failed set_cancelled set_progress set_full
    set_cancel_requested is_silent is_unclaimed
row_step-edge (transition start id now) j = ground arith
row_step-edge (transition (complete b) id now) j = ground arith
row_step-edge (transition (fail s) id now) j = ground arith
row_step-edge (transition (cancel r) id now) j = ground arith
row_step-edge (progress id p now) j = ground arith
row_step-edge (finalize id now) j = ground arith
row_step-edge (request id reason now) j = ground arith
row_step-edge (reap pg sg wg now db_now db_later) j = ground arith
row_step-edge (insert _ _ _ _ _) j = inl refl

row_step-SameOutcome :
    (op : Op) (j : BackupJob) → is_terminal j.status ≡ true → SameOutcome j (row_step op j)
unfolding set_running set_success set_failed set_cancelled set_progress set_full
    set_cancel_requested is_silent is_unclaimed
row_step-SameOutcome (transition start id now) j h = ground arith
row_step-SameOutcome (transition (complete b) id now) j h = ground arith
row_step-SameOutcome (transition (fail s) id now) j h = ground arith
row_step-SameOutcome (transition (cancel r) id now) j h = ground arith
row_step-SameOutcome (progress id p now) j h = ground arith
row_step-SameOutcome (finalize id now) j h = ground arith
row_step-SameOutcome (request id reason now) j h = ground arith
row_step-SameOutcome (reap pg sg wg now db_now db_later) j h = ground arith
row_step-SameOutcome (insert _ _ _ _ _) j h = ground arith

-- One sanctioned operation (a transition, an update or the end of progress, a request to cancel, the
-- reaper or the insertion of a pending job), however it ends, keeps the row of a job and leaves its
-- status, or moves it along one edge of the lifecycle: pending to running or failed, running to
-- success, failed or cancelled.
pub step-edge :
    (op : Op) (jobs : Jobs) (k : ℕ) (j : BackupJob)
    → find job_id k jobs ≡ some j
    → (j' : BackupJob) × (find job_id k (step op jobs) ≡ some j')
      × ((j'.status ≡ j.status) ⊎ (edge j.status j'.status ≡ true))
step-edge op jobs k j h = (row_step op j, find-step op jobs k j h, row_step-edge op j)

-- A job that has succeeded, failed or been cancelled keeps its status, its start and end, its byte
-- count and its error summary under any sequence of the sanctioned operations.
pub run-terminal :
    (ops : List Op) (jobs : Jobs) (k : ℕ) (j : BackupJob)
    → find job_id k jobs ≡ some j
    → is_terminal j.status ≡ true
    → (j' : BackupJob) × (find job_id k (run ops jobs) ≡ some j') × SameOutcome j j'
unfolding run
run-terminal [] jobs k j h e = (
  j,
  h,
  record {
    status = refl;
    started_at = refl;
    finished_at = refl;
    bytes_uploaded = refl;
    error_summary = refl;
  },
)
run-terminal (op ∷ ops) jobs k j h e =
    let same = row_step-SameOutcome op j e in
    let (j', h', same') =
      run-terminal ops (step op jobs) k (row_step op j) (find-step op jobs k j h)
        (ap is_terminal same.status ∙ e) in
    (
      j',
      h',
      record {
        status = same'.status ∙ same.status;
        started_at = same'.started_at ∙ same.started_at;
        finished_at = same'.finished_at ∙ same.finished_at;
        bytes_uploaded = same'.bytes_uploaded ∙ same.bytes_uploaded;
        error_summary = same'.error_summary ∙ same.error_summary;
      },
    )
