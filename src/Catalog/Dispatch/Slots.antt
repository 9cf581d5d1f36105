-- ===== src/Catalog/Dispatch/Slots.antt =====
-- internal/catalog/jobs.go: what the operations of the store beside the guard do to the slots that the
-- guard of internal/catalog/dispatch.go counts. Of those that write no status
-- directly, none but the unguarded start takes one.
use native.Mathlib.Nat.{le_trans}
use opensourcebackup.Prelude.{
  Bool, List, Option, String, [], ap, arith, bit, count_where, false, none, refl, some, ℕ, ◌∷◌, ◌≡◌,
  ◌≤◌,
}
use opensourcebackup.Catalog.Dispatch.Guard.{
  occupies, occupies_agent, occupies_repository, repository_of,
}
use opensourcebackup.Catalog.Jobs.Lifecycle.{
  Op, finalize, insert, progress, reap, request, step, transition,
}
use opensourcebackup.Catalog.Jobs.Rows.{
  full_percent, is_open, is_silent, is_unclaimed, pending_reason, running_reason,
  set_cancel_requested, set_cancelled, set_failed, set_full, set_progress, set_success,
}
use opensourcebackup.Catalog.Jobs.Statements.{
  Jobs, any_status, apply_transition, cancel_job, complete_job, create, fail_job, fail_stale_jobs,
  finalize_progress, on_job, pending_job, request_cancel, start_job, update_or_missing,
  update_progress,
}
use opensourcebackup.Catalog.Jobs.Transitions.{cancel, complete, fail, start, transit}
use opensourcebackup.Catalog.Models.{
  BackupJob, BackupPolicy, JobProgress, JobStatus, is_running, job_id,
}
use opensourcebackup.Prelude.Table.{
  Unique, append-Unique, count_where-append, count_where-update_where-le, find, update_where-Unique,
}

-- The operations of the store that run beside the guard: all but the unguarded start, with a new
-- key for each inserted job.
abbrev pub Sanctioned : Op → Jobs → Type 0
Sanctioned (transition start _ _) jobs = ⊥
Sanctioned (insert new_id _ _ _ _) jobs = find job_id new_id jobs ≡ none
Sanctioned _ jobs = Unit {0}

-- A count of running jobs that looks at their system and policy only.
pub record IsSlot (q : BackupJob → Bool) : Type 0 where
  pub runs : (j : BackupJob) → is_running j.status ≡ false → q j ≡ false
  pub progress_same :
      (j : BackupJob) (p : JobProgress) (t : Option ℕ)
      → q (record j { progress = p; last_progress_at = t }) ≡ q j
  pub cancel_same :
      (j : BackupJob) (t : Option ℕ) (r : String)
      → q (record j { cancel_requested_at = t; cancel_reason = r }) ≡ q j

pub occupies-IsSlot : IsSlot occupies
occupies-IsSlot = record {
  runs = λ j h. h;
  progress_same = λ j p t. refl;
  cancel_same = λ j t r. refl;
}

pub occupies_agent-IsSlot : (a : ℕ) → IsSlot (occupies_agent a)
occupies_agent-IsSlot a = record {
  runs = λ j h. ground arith;
  progress_same = λ j p t. refl;
  cancel_same = λ j t r. refl;
}

pub occupies_repository-IsSlot :
    (policies : List BackupPolicy) (r : ℕ) → IsSlot (occupies_repository policies r)
unfolding repository_of
occupies_repository-IsSlot policies r = record {
  runs = λ j h. ground arith;
  progress_same = λ j p t. refl;
  cancel_same = λ j t r. refl;
}

module _ (q : BackupJob → Bool) (s : IsSlot q) where
  apply_transition-le :
      (allowed : JobStatus → Bool) (set : BackupJob → BackupJob) (id : ℕ) (jobs : Jobs)
      → ((j : BackupJob) → bit (q (set j)) ≤ bit (q j))
      → count_where q (apply_transition id allowed set jobs).1 ≤ count_where q jobs
  unfolding apply_transition
  apply_transition-le allowed set id jobs h =
      ground (arith, count_where-update_where-le q (on_job id allowed) set (λ j _. h j) jobs)

  update_or_missing-le :
      (allowed : JobStatus → Bool) (set : BackupJob → BackupJob) (id : ℕ) (jobs : Jobs)
      → ((j : BackupJob) → bit (q (set j)) ≤ bit (q j))
      → count_where q (update_or_missing id allowed set jobs).1 ≤ count_where q jobs
  unfolding update_or_missing
  update_or_missing-le allowed set id jobs h =
      ground (arith, count_where-update_where-le q (on_job id allowed) set (λ j _. h j) jobs)

  stopped-le : (j k : BackupJob) → is_running k.status ≡ false → bit (q k) ≤ bit (q j)
  stopped-le j k h = omega (arith, ap bit (s.runs k h))

  -- No sanctioned operation makes a job run.
  pub step-le :
      (op : Op) (jobs : Jobs)
      → Sanctioned op jobs
      → count_where q (step op jobs) ≤ count_where q jobs
  unfolding step transit start_job complete_job fail_job cancel_job update_progress
      finalize_progress request_cancel fail_stale_jobs create pending_job set_success set_failed
      set_cancelled set_progress set_full set_cancel_requested
  step-le (transition start id now) jobs h = elim h [ ]
  step-le (transition (complete b) id now) jobs h =
      apply_transition-le is_running (set_success b now) id jobs (λ j. stopped-le j _ refl)
  step-le (transition (fail m) id now) jobs h =
      apply_transition-le is_open (set_failed m now) id jobs (λ j. stopped-le j _ refl)
  step-le (transition (cancel r) id now) jobs h =
      apply_transition-le is_running (set_cancelled r now) id jobs (λ j. stopped-le j _ refl)
  step-le (progress id p now) jobs h =
      update_or_missing-le any_status (set_progress p now) id jobs
        (λ j. omega (arith, ap bit (s.progress_same j p (some now))))
  step-le (finalize id now) jobs h = update_or_missing-le any_status (set_full now) id jobs (λ j.
      omega (
        arith,
        ap bit (s.progress_same j (record j.progress { percent = full_percent }) (some now)),
      ))
  step-le (request id r now) jobs h =
      update_or_missing-le is_open (set_cancel_requested r now) id jobs
        (λ j. omega (arith, ap bit (s.cancel_same j (some now) r)))
  step-le (reap pg sg wg now db_now db_later) jobs h =
      le_trans
        (count_where-update_where-le q (is_unclaimed wg now) (set_failed pending_reason db_later)
          (λ j _. stopped-le j _ refl) _)
        (count_where-update_where-le q (is_silent pg sg now) (set_failed running_reason db_now)
          (λ j _. stopped-le j _ refl) jobs)
  step-le (insert new_id now system_id policy_id type) jobs h =
      let row = (create new_id now (pending_job system_id policy_id type) jobs).0 in
      omega (arith, count_where-append q jobs (row ∷ []), ap bit (s.runs row refl))

pub step-Unique :
    (op : Op) (jobs : Jobs) → Sanctioned op jobs → Unique job_id jobs → Unique job_id (step op jobs)
unfolding step transit start_job complete_job fail_job cancel_job update_progress finalize_progress
    request_cancel fail_stale_jobs create apply_transition update_or_missing set_success set_failed
    set_cancelled set_progress set_full set_cancel_requested
step-Unique (transition start id now) jobs h u = elim h [ ]
step-Unique (transition (complete b) id now) jobs h u = ground (
  arith,
  update_where-Unique job_id (on_job id is_running) (set_success b now) (λ (_ : BackupJob). refl)
      jobs u,
)
step-Unique (transition (fail m) id now) jobs h u = ground (
  arith,
  update_where-Unique job_id (on_job id is_open) (set_failed m now) (λ (_ : BackupJob). refl) jobs
      u,
)
step-Unique (transition (cancel r) id now) jobs h u = ground (
  arith,
  update_where-Unique job_id (on_job id is_running) (set_cancelled r now) (λ (_ : BackupJob). refl)
      jobs u,
)
step-Unique (progress id p now) jobs h u = ground (
  arith,
  update_where-Unique job_id (on_job id any_status) (set_progress p now) (λ (_ : BackupJob). refl)
      jobs u,
)
step-Unique (finalize id now) jobs h u = ground (
  arith,
  update_where-Unique job_id (on_job id any_status) (set_full now) (λ (_ : BackupJob). refl) jobs u,
)
step-Unique (request id r now) jobs h u = ground (
  arith,
  update_where-Unique job_id (on_job id is_open) (set_cancel_requested r now)
      (λ (_ : BackupJob). refl) jobs u,
)
step-Unique (reap pg sg wg now db_now db_later) jobs h u =
    update_where-Unique job_id (is_unclaimed wg now) (set_failed pending_reason db_later)
      (λ _. refl) _
      (update_where-Unique job_id (is_silent pg sg now) (set_failed running_reason db_now)
        (λ _. refl) jobs u)
step-Unique (insert new_id now s p t) jobs h u = append-Unique job_id jobs _ h u
