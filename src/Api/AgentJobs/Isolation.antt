-- ===== src/Api/AgentJobs/Isolation.antt =====
-- internal/api/agent_jobs.go: what a call can do to the jobs of other systems.
use mathlib.Core.Option
use opensourcebackup.Prelude.{
  Bool, Bool-cases, Option, ap, arith, inl, inr, none, refl, some, sym, ℕ, ◌∙◌, ◌≡◌, ◌≢◌,
}
use opensourcebackup.Api.AgentJobs.{
  Answer, CompleteBody, cancel_status_agent_job, cancelled_agent_job, claim_job, complete_agent_job,
  complete_claimed, fail_agent_job, progress_agent_job, start_agent_job, start_claimed, store_step,
  write_fresh_job,
}
use opensourcebackup.Api.AgentJobs.Claims.{
  Claimed, claim_job-cases, finish-store_step, register_snapshot-catalog, write_decision-catalog,
  write_fresh_job-state,
}
use opensourcebackup.Api.AgentJobs.Ownership.{
  AgentCall, call_cancel_status, call_cancelled, call_complete, call_fail, call_progress,
  call_start, no_body, serve,
}
use opensourcebackup.Api.Http.{Body, Flow, finish, finish-require_body, go, ◌>>=◌}
use opensourcebackup.Api.Server.{Server, Surroundings}
use opensourcebackup.Catalog.Dispatch.Capacity.{admit_start-admitted}
use opensourcebackup.Catalog.Dispatch.Gates.{admit_start-unchanged, is_admitted}
use opensourcebackup.Catalog.Dispatch.Guard.{
  Database, DispatchDecision, DispatchError, Stage, admit_start,
}
use opensourcebackup.Catalog.Dispatch.Limits.{DispatchLimits}
use opensourcebackup.Catalog.Jobs.Lifecycle.{finalize, find-step, progress, step, transition}
use opensourcebackup.Catalog.Jobs.Statements.{
  Jobs, Outcome, cancel_job, complete_job, fail_job, finalize_progress, start_job, update_progress,
}
use opensourcebackup.Catalog.Jobs.Transitions.{Transition, cancel, complete, fail, start, transit}
use opensourcebackup.Catalog.Models.{BackupJob, JobProgress, Result, err, job_id, ok}
use opensourcebackup.Prelude.Table.{Unique, find, find-key}

abbrev key_of : Option ℕ → ℕ
key_of none = 0
key_of (some i) = i

-- An operation on another job leaves a row as it was.
operation-other :
    (t : Transition) (id now k : ℕ) (jobs : Jobs) (j : BackupJob)
    → find job_id k jobs ≡ some j
    → k ≢ id
    → find job_id k (transit t id now jobs).1 ≡ some j
unfolding step
operation-other t id now k jobs j h ne =
    find-step (transition t id now) jobs k j h ∙ ground (arith, find-key job_id k jobs h)

update_progress-other :
    (id now k : ℕ) (p : JobProgress) (jobs : Jobs) (j : BackupJob)
    → find job_id k jobs ≡ some j
    → k ≢ id
    → find job_id k (update_progress id p now jobs).1 ≡ some j
unfolding step
update_progress-other id now k p jobs j h ne =
    find-step (progress id p now) jobs k j h ∙ ground (arith, find-key job_id k jobs h)

finalize_progress-other :
    (id now k : ℕ) (jobs : Jobs) (j : BackupJob)
    → find job_id k jobs ≡ some j
    → k ≢ id
    → find job_id k (finalize_progress id now jobs).1 ≡ some j
unfolding step
finalize_progress-other id now k jobs j h ne =
    find-step (finalize id now) jobs k j h ∙ ground (arith, find-key job_id k jobs h)

admit_start-other :
    (faults : Stage → Bool) (limits : DispatchLimits) (id now db_now k : ℕ) (db : Database)
    (j : BackupJob)
    → Unique job_id db.jobs
    → find job_id k db.jobs ≡ some j
    → k ≢ id
    → (r : Result DispatchError DispatchDecision) (db' : Database)
    → admit_start faults limits id now db_now db ≡ (r, db')
    → find job_id k db'.jobs ≡ some j
admit_start-other faults limits id now db_now k db j u h ne (err e) db' eq =
    ap (λ p. find job_id k p.1.jobs) (sym eq)
    ∙ ap (λ d. find job_id k d.jobs)
        (admit_start-unchanged faults limits id now db_now db (ap (λ p. is_admitted p.0) eq))
    ∙ h
admit_start-other faults limits id now db_now k db j u h ne (ok d) db' eq =
    elim (Bool-cases d.allowed) [
      | inl admitted_now ↦
          let (_, _, _, _, others, _, _) =
            admit_start-admitted faults limits id now db_now db d db' u eq admitted_now in
          others k ne ∙ h
      | inr held ↦
          ap (λ p. find job_id k p.1.jobs) (sym eq)
          ∙ ap (λ d. find job_id k d.jobs)
              (admit_start-unchanged faults limits id now db_now db
                (ap (λ p. is_admitted p.0) eq ∙ held))
          ∙ h
    ]

module _ (env : Surroundings) (k : ℕ) (j : BackupJob) (s : Server)
    (u : Unique job_id s.catalog.jobs) (h : find job_id k s.catalog.jobs ≡ some j) (caller : ℕ)
    (path : Option ℕ) (foreign : j.system_id ≢ caller) where
  abbrev Stays : Answer → Type 0
  Stays a = find job_id k a.1.catalog.jobs ≡ some j

  fresh-Stays :
      (id : ℕ) (s' : Server)
      → find job_id k s'.catalog.jobs ≡ some j
      → Stays (write_fresh_job id s')
  fresh-Stays id s' e = ap (λ t. find job_id k t.catalog.jobs) (write_fresh_job-state id s') ∙ e

  -- The claimed job is another one.
  Claimed-other : (mine : BackupJob) → Claimed (some caller) path s mine → k ≢ mine.id
  Claimed-other mine c eq =
      let key : mine.id ≡ c.id = find-key job_id c.id s.catalog.jobs c.there in
      let same : some j ≡ some mine =
        sym h ∙ ap (λ i. find job_id i s.catalog.jobs) (eq ∙ key) ∙ c.there in
      foreign (
        ap (λ o. key_of (Option.map (λ (x : BackupJob). x.system_id) o)) same
        ∙ c.owned
        ∙ sym (ap key_of c.caller))

  claimed-Stays :
      {B : Type 0} (b : Body B) (rest : BackupJob → Flow Answer Answer)
      → ((mine : BackupJob) → k ≢ mine.id → Stays (finish (rest mine)))
      → Stays (
          finish (claim_job (record { system = some caller; path_id = path; body = b }) s >>= rest))
  claimed-Stays b rest done = elim (claim_job-cases (some caller) path b s) [
    | inl (c, stopped) ↦ rw stopped h
    | inr (mine, c, goes) ↦ rw goes (done mine (Claimed-other mine c))
  ]

  moved :
      (t : Transition) (mine : BackupJob)
      → k ≢ mine.id
      → find job_id k (transit t mine.id env.now s.catalog.jobs).1 ≡ some j
  moved t mine ne = operation-other t mine.id env.now k s.catalog.jobs j h ne

  transit-Stays :
      (t : Transition) (mine : BackupJob) (o : Outcome)
      → o ≡ transit t mine.id env.now s.catalog.jobs
      → k ≢ mine.id
      → Stays (finish (store_step o s >>= λ s'. go (write_fresh_job mine.id s')))
  transit-Stays t mine o e ne =
      let there = ap (λ r. find job_id k r.1) e ∙ moved t mine ne in
      finish-store_step Stays o s _ (λ _. there) (fresh-Stays mine.id _ there)

  start-Stays :
      (d : Option DispatchLimits) (mine : BackupJob)
      → k ≢ mine.id
      → Stays (finish (start_claimed env d mine s))
  unfolding transit
  start-Stays none mine ne =
      transit-Stays start mine (start_job mine.id env.now s.catalog.jobs) refl ne
  start-Stays (some limits) mine ne =
      let r = admit_start env.faults limits mine.id env.now env.now s.catalog in
      ap (λ c. find job_id k c.jobs) (write_decision-catalog mine.id s r.0 r.1)
      ∙ admit_start-other env.faults limits mine.id env.now env.now k s.catalog j u h ne r.0 r.1
          refl

  complete-Stays :
      (mine : BackupJob) (body : CompleteBody)
      → k ≢ mine.id
      → Stays (finish (complete_claimed env mine body s))
  unfolding transit
  complete-Stays mine body ne =
      let there = moved (complete body.bytes_uploaded) mine ne in
      finish-store_step Stays (complete_job mine.id body.bytes_uploaded env.now s.catalog.jobs) s _
        (λ _. there)
        (fresh-Stays mine.id _ (
          ap (λ c. find job_id k c.jobs) (register_snapshot-catalog env mine.system_id body mine _)
          ∙ finalize_progress-other mine.id env.now k _ j there ne))

  -- Where job keys are distinct, a call of an agent on one of the six job routes (start, complete,
  -- fail, progress, cancel status, cancelled) leaves every job of another system as it is, however
  -- the call ends. The routes of retention jobs are not among them.
  pub serve-other : (call : AgentCall) → Stays (serve env call (some caller) path s)
  unfolding serve start_agent_job cancel_status_agent_job cancelled_agent_job complete_agent_job
      fail_agent_job progress_agent_job transit
  serve-other call_start = claimed-Stays no_body _ (λ mine ne. start-Stays env.dispatch mine ne)
  serve-other call_cancel_status = claimed-Stays no_body _ (λ mine ne. h)
  serve-other call_cancelled = claimed-Stays no_body _ (λ mine ne.
      transit-Stays (cancel mine.cancel_reason) mine
        (cancel_job mine.id mine.cancel_reason env.now s.catalog.jobs) refl ne)
  serve-other (call_complete b) = claimed-Stays b _ (λ mine ne.
      finish-require_body Stays _ b _ (λ _ _. h) (λ body _. complete-Stays mine body ne))
  serve-other (call_fail b) = claimed-Stays b _ (λ mine ne.
      finish-require_body Stays _ b _ (λ _ _. h)
        (λ summary _.
          transit-Stays (fail summary) mine (fail_job mine.id summary env.now s.catalog.jobs) refl
            ne))
  serve-other (call_progress b) = claimed-Stays b _ (λ mine ne.
      finish-require_body Stays _ b _ (λ _ _. h)
        (λ p _.
          finish-store_step Stays (update_progress mine.id p env.now s.catalog.jobs) s _
            (λ _. update_progress-other mine.id env.now k p s.catalog.jobs j h ne)
            (update_progress-other mine.id env.now k p s.catalog.jobs j h ne)))
