-- ===== src/Catalog/Jobs/Transitions.antt =====
-- internal/catalog/jobs.go: what each guarded transition returns and does, on every branch. The
-- edges of the lifecycle are those that the comment of the JobStore interface lists.
use mathlib.Core.Option
use opensourcebackup.Prelude.{
  Bool, Option, String, ap, arith, bit, count_where, false, if◌then◌else◌, none, refl, some, true,
  ℕ, ◌∙◌, ◌≡◌, ◌≢◌,
}
use opensourcebackup.Catalog.Jobs.Rows.{
  is_open, set_cancelled, set_failed, set_running, set_success,
}
use opensourcebackup.Catalog.Jobs.Statements.{
  Jobs, Outcome, apply_transition, cancel_job, complete_job, fail_job, on_job, start_job,
  status_check,
}
use opensourcebackup.Catalog.Models.{
  BackupJob, JobStatus, cancelled, err, failed, illegal_transition, is_pending, is_running, job_id,
  not_found, ok, pending, running, success,
}
use opensourcebackup.Prelude.Table.{
  Unique, count_where-key, find, find-key, find-update_where, hits, update_where, update_where-none,
}

-- The transitions, with what each carries.
pub data Transition : Type 0 where
  start : Transition
  complete : ℕ → Transition
  fail : String → Transition
  cancel : String → Transition

unfoldable pub transit : Transition → ℕ → ℕ → Jobs → Outcome
transit start id now = start_job id now
transit (complete bytes) id now = complete_job id bytes now
transit (fail summary) id now = fail_job id summary now
transit (cancel reason) id now = cancel_job id reason now

-- pending → running, running → success, running|pending → failed, running → cancelled.
abbrev pub edge : JobStatus → JobStatus → Bool
edge pending running = true
edge running success = true
edge running failed = true
edge pending failed = true
edge running cancelled = true
edge _ _ = false

abbrev pub target : Transition → JobStatus
target start = running
target (complete _) = success
target (fail _) = failed
target (cancel _) = cancelled

module _ (allowed : JobStatus → Bool) (set : BackupJob → BackupJob) (id : ℕ) (jobs : Jobs) where
  pub apply_transition-missing :
      Unique job_id jobs
      → find job_id id jobs ≡ none
      → apply_transition id allowed set jobs ≡ (err not_found, jobs)
  unfolding apply_transition status_check
  apply_transition-missing u h =
      let none_hit : count_where (on_job id allowed) jobs ≡ 0 =
        count_where-key job_id id (λ j. allowed j.status) jobs u ∙ ap (hits job_id _) h in
      rw (none_hit, update_where-none (on_job id allowed) set jobs none_hit) (rw (h, status_check))

  pub apply_transition-refused :
      {j : BackupJob}
      → Unique job_id jobs
      → find job_id id jobs ≡ some j
      → allowed j.status ≡ false
      → apply_transition id allowed set jobs ≡ (err (illegal_transition j.status), jobs)
  unfolding apply_transition status_check
  apply_transition-refused {j} u h a =
      let none_hit : count_where (on_job id allowed) jobs ≡ 0 =
        count_where-key job_id id (λ k. allowed k.status) jobs u
        ∙ ap (hits job_id (λ k. allowed k.status)) h
        ∙ ap bit a in
      rw (none_hit, update_where-none (on_job id allowed) set jobs none_hit) (rw (h, status_check))

  pub apply_transition-allowed :
      {j : BackupJob}
      → Unique job_id jobs
      → find job_id id jobs ≡ some j
      → allowed j.status ≡ true
      → apply_transition id allowed set jobs ≡ (ok tt, update_where (on_job id allowed) set jobs)
  unfolding apply_transition
  apply_transition-allowed {j} u h a =
      let one_hit : count_where (on_job id allowed) jobs ≡ 1 =
        count_where-key job_id id (λ k. allowed k.status) jobs u
        ∙ ap (hits job_id (λ k. allowed k.status)) h
        ∙ ap bit a in
      rw one_hit

module _ (t : Transition) (id now : ℕ) (jobs : Jobs) where
  -- Where job keys are distinct and no job has the key, a transition returns ErrNotFound and leaves
  -- the table as it was.
  pub transit-missing :
      Unique job_id jobs
      → find job_id id jobs ≡ none
      → transit t id now jobs ≡ (err not_found, jobs)
  unfolding transit start_job complete_job fail_job cancel_job
  transit-missing u h = elim t as (λ t. transit t id now jobs ≡ (err not_found, jobs)) [
    | start ↦ apply_transition-missing is_pending (set_running now) id jobs u h
    | complete b ↦ apply_transition-missing is_running (set_success b now) id jobs u h
    | fail s ↦ apply_transition-missing is_open (set_failed s now) id jobs u h
    | cancel r ↦ apply_transition-missing is_running (set_cancelled r now) id jobs u h
  ]

-- The SET clause and the guard of a transition.
abbrev pub set_clause : Transition → ℕ → BackupJob → BackupJob
set_clause start now = set_running now
set_clause (complete bytes) now = set_success bytes now
set_clause (fail summary) now = set_failed summary now
set_clause (cancel reason) now = set_cancelled reason now

abbrev pub guard : Transition → JobStatus → Bool
guard start = is_pending
guard (complete _) = is_running
guard (fail _) = is_open
guard (cancel _) = is_running

pub transit-apply :
    (t : Transition) (id now : ℕ) (jobs : Jobs)
    → transit t id now jobs ≡ apply_transition id (guard t) (set_clause t now) jobs
unfolding transit start_job complete_job fail_job cancel_job
transit-apply start id now jobs = refl
transit-apply (complete b) id now jobs = refl
transit-apply (fail s) id now jobs = refl
transit-apply (cancel r) id now jobs = refl

-- The guards in the SQL are the edges of the lifecycle.
pub guard-edge : (t : Transition) (s : JobStatus) → guard t s ≡ edge s (target t)
guard-edge start s = ground arith
guard-edge (complete b) s = ground arith
guard-edge (fail m) s = ground arith
guard-edge (cancel r) s = ground arith

pub set_clause-target :
    (t : Transition) (now : ℕ) (j : BackupJob) → (set_clause t now j).status ≡ target t
unfolding set_running set_success set_failed set_cancelled
set_clause-target start now j = refl
set_clause-target (complete b) now j = refl
set_clause-target (fail m) now j = refl
set_clause-target (cancel r) now j = refl

pub set_clause-id :
    (t : Transition) (now : ℕ) (j : BackupJob) → job_id (set_clause t now j) ≡ job_id j
unfolding set_running set_success set_failed set_cancelled
set_clause-id start now j = refl
set_clause-id (complete b) now j = refl
set_clause-id (fail m) now j = refl
set_clause-id (cancel r) now j = refl

module _ (t : Transition) (id now : ℕ) (jobs : Jobs) where
  -- Where job keys are distinct and the lifecycle has no edge from the job's status to the one that
  -- the transition sets, the transition returns ErrIllegalTransition with the current status and
  -- leaves the table as it was.
  pub transit-refused :
      (j : BackupJob)
      → Unique job_id jobs
      → find job_id id jobs ≡ some j
      → edge j.status (target t) ≡ false
      → transit t id now jobs ≡ (err (illegal_transition j.status), jobs)
  transit-refused j u h e =
      transit-apply t id now jobs
      ∙ apply_transition-refused (guard t) (set_clause t now) id jobs u h
          (guard-edge t j.status ∙ e)

  -- Where job keys are distinct and the lifecycle has an edge from the job's status to the one that
  -- the transition sets, the transition succeeds, the job has the target status and the other
  -- columns that its SET clause writes, and every other job is as it was.
  pub transit-allowed :
      (j : BackupJob)
      → Unique job_id jobs
      → find job_id id jobs ≡ some j
      → edge j.status (target t) ≡ true
      → let (reply, after) = transit t id now jobs in
        (reply ≡ ok tt)
        × (find job_id id after ≡ some (set_clause t now j))
        × ((set_clause t now j).status ≡ target t)
        × ((k : ℕ) → k ≢ id → find job_id k after ≡ find job_id k jobs)
  transit-allowed j u h e =
      let hit : guard t j.status ≡ true = guard-edge t j.status ∙ e in
      let run =
        transit-apply t id now jobs
        ∙ apply_transition-allowed (guard t) (set_clause t now) id jobs u h hit in
      rw run (
        refl,
        find-update_where job_id _ _ (set_clause-id t now) id jobs
            ∙ rw h (ground (arith, find-key job_id id jobs h)),
        set_clause-target t now j,
        λ k ne.
            find-update_where job_id _ _ (set_clause-id t now) k jobs
            ∙ untouched k ne (find job_id k jobs) refl,
      )
    where
      untouched :
          (k : ℕ)
          → k ≢ id
          → (o : Option BackupJob) → find job_id k jobs ≡ o
          → Option.map
              (λ x. if on_job id (guard t) x then set_clause t now x else x)
              (find job_id k jobs)
            ≡ find job_id k jobs
      untouched k ne none e = rw e
      untouched k ne (some x) e = rw e (ground (arith, find-key job_id k jobs e))
