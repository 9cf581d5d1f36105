-- ===== src/Api/AgentJobs/Reports.antt =====
-- internal/api/agent_jobs.go: the reports with which an agent ends a job, in time or too late.
use opensourcebackup.Catalog.Snapshots
use opensourcebackup.Prelude.{
  ==_refl, List, Option, [], ap, arith, false, none, refl, some, subst, sym, ℕ, ◌++◌, ◌∙◌, ◌∷◌, ◌≡◌,
}
use opensourcebackup.Api.AgentJobs.{
  Answer, CompleteBody, cancelled_agent_job, claim_job, complete_agent_job, complete_claimed,
  fail_agent_job, fresh, register_at, register_snapshot, snapshot_repository, store_step,
  unverified, write_fresh_job, write_job,
}
use opensourcebackup.Api.AgentJobs.Claims.{register_snapshot-catalog}
use opensourcebackup.Api.AgentJobs.Ownership.{
  AgentCall, call_cancel_status, call_cancelled, call_complete, call_fail, call_progress,
  call_start, no_body, serve,
}
use opensourcebackup.Api.Http.{
  Body, Flow, decoded, error, finish, go, http_status_for_error, malformed, reply, too_large, ◌>>=◌,
}
use opensourcebackup.Api.Server.{Server, Surroundings, with_jobs}
use opensourcebackup.Catalog.Dispatch.Slots.{step-Unique}
use opensourcebackup.Catalog.Jobs.Lifecycle.{finalize, find-step, run, step, transition}
use opensourcebackup.Catalog.Jobs.Queries.{found, get_by_id}
use opensourcebackup.Catalog.Jobs.Rows.{set_full, set_success}
use opensourcebackup.Catalog.Jobs.Statements.{
  Outcome, cancel_job, complete_job, fail_job, finalize_progress,
}
use opensourcebackup.Catalog.Jobs.Transitions.{
  Transition, cancel, complete, edge, fail, start, target, transit, transit-allowed,
  transit-refused,
}
use opensourcebackup.Catalog.Models.{BackupJob, Snapshot, job_id, running}
use opensourcebackup.Catalog.Snapshots.{Snapshots}
use opensourcebackup.Prelude.Table.{Unique, find, find-key}

-- The transition that a report asks for.
abbrev pub asks : AgentCall → BackupJob → Option Transition
asks (call_complete (decoded b)) j = some (complete b.bytes_uploaded)
asks (call_fail (decoded summary)) j = some (fail summary)
asks call_cancelled j = some (cancel j.cancel_reason)
asks _ j = none

abbrev or_start : Option Transition → Transition
or_start none = start
or_start (some t) = t

append-nil : (sns : List Snapshot) → sns ++ [] ≡ sns
append-nil [] = refl
append-nil (sn ∷ sns) = ap (sn ∷◌) (append-nil sns)

claim_job-owned :
    {B : Type 0} (system_id id : ℕ) (b : Body B) (s : Server) (j : BackupJob)
    → find job_id id s.catalog.jobs ≡ some j
    → j.system_id ≡ system_id
    → claim_job (record { system = some system_id; path_id = some id; body = b }) s ≡ go j
unfolding claim_job get_by_id
claim_job-owned system_id id b s j there same = rw (there, same, ==_refl system_id) refl

module _ (env : Surroundings) (s : Server) (j : BackupJob) where
  -- The snapshots that a completion registers.
  abbrev pub registered : CompleteBody → Option ℕ → List Snapshot
  registered b none = []
  registered b (some repo) =
      record {
        id = env.new_id;
        job_id = j.id;
        engine_snapshot_id = b.engine_snapshot_id;
        repository_id = repo;
        created_at = env.now;
        hostname = some (env.uuid_text j.system_id);
        paths = b.paths;
        checksum_status = unverified;
      }
      ∷ []

  register_at-snapshots :
      (b : CompleteBody) (o : Option ℕ) (s' : Server)
      → (register_at env o j.system_id b j s').snapshots ≡ s'.snapshots ++ registered b o
  unfolding Snapshots.create
  register_at-snapshots b none s' = sym (append-nil s'.snapshots)
  register_at-snapshots b (some r) s' = refl

  -- What an answer to a completion shows: the finished job, as replied and as stored, and the
  -- snapshot, if one is due.
  abbrev pub Completed : CompleteBody → BackupJob → Answer → Type 0
  Completed b done a =
      (a.0 ≡ reply 200 (fresh done))
      × (find job_id j.id a.1.catalog.jobs ≡ some done)
      × (a.1.snapshots ≡ s.snapshots ++ registered b (snapshot_repository b j s))

module _ (env : Surroundings) (s : Server) (id : ℕ) (j : BackupJob)
    (u : Unique job_id s.catalog.jobs) (there : find job_id id s.catalog.jobs ≡ some j) where
  under_own_key : find job_id j.id s.catalog.jobs ≡ some j
  under_own_key =
      ap (λ k. find job_id k s.catalog.jobs) (find-key job_id id s.catalog.jobs there) ∙ there

  refused :
      (t : Transition) (o : Outcome) (k : Server → Flow Answer Answer)
      → o ≡ transit t j.id env.now s.catalog.jobs
      → edge j.status (target t) ≡ false
      → finish (store_step o s >>= k) ≡ (error 409, s)
  unfolding http_status_for_error
  refused t o k e no_edge =
      ap (λ p. finish (store_step p s >>= k))
        (e ∙ transit-refused t j.id env.now s.catalog.jobs j u under_own_key no_edge)

  asked :
      {t r : Transition}
      → some r ≡ some t
      → edge j.status (target t) ≡ false
      → edge j.status (target r) ≡ false
  asked {t} {r} h no_edge = ap (λ o. edge j.status (target (or_start o))) h ∙ no_edge

  -- Where job keys are distinct, a report of the owner that asks for a transition without an edge
  -- in the lifecycle from the job's status is answered with 409 and changes nothing.
  pub serve-late :
      (call : AgentCall) (t : Transition)
      → asks call j ≡ some t
      → edge j.status (target t) ≡ false
      → serve env call (some j.system_id) (some id) s ≡ (error 409, s)
  unfolding serve cancelled_agent_job complete_agent_job fail_agent_job transit
  serve-late call_start t h no_edge = absurd (ground arith)
  serve-late call_cancel_status t h no_edge = absurd (ground arith)
  serve-late (call_progress _) t h no_edge = absurd (ground arith)
  serve-late call_cancelled t h no_edge =
      rw (claim_job-owned j.system_id id no_body s j there refl) (
        refused (cancel j.cancel_reason) (cancel_job j.id j.cancel_reason env.now s.catalog.jobs) _
          refl (asked h no_edge))
  serve-late (call_complete (decoded b)) t h no_edge =
      rw (claim_job-owned j.system_id id (decoded b) s j there refl) (
        refused (complete b.bytes_uploaded)
          (complete_job j.id b.bytes_uploaded env.now s.catalog.jobs) _ refl (asked h no_edge))
  serve-late (call_fail (decoded summary)) t h no_edge =
      rw (claim_job-owned j.system_id id (decoded summary) s j there refl) (
        refused (fail summary) (fail_job j.id summary env.now s.catalog.jobs) _ refl
          (asked h no_edge))
  serve-late (call_complete too_large) t h no_edge = absurd (ground arith)
  serve-late (call_complete malformed) t h no_edge = absurd (ground arith)
  serve-late (call_fail too_large) t h no_edge = absurd (ground arith)
  serve-late (call_fail malformed) t h no_edge = absurd (ground arith)

  wrote_found :
      (k : ℕ) (s' : Server) {mine : BackupJob}
      → find job_id k s'.catalog.jobs ≡ some mine
      → write_fresh_job k s' ≡ (reply 200 (fresh mine), s')
  unfolding write_fresh_job get_by_id
  wrote_found k s' h = ap (λ o. write_job (found o) s') h

  complete_claimed-Completed :
      (b : CompleteBody)
      → j.status ≡ running
      → let answer = finish (complete_claimed env j b s) in
        Completed env s j b (set_full env.now (set_success b.bytes_uploaded env.now j)) answer
        × Unique job_id answer.1.catalog.jobs
  unfolding transit step register_snapshot set_success set_full
  complete_claimed-Completed b run =
      let t = complete b.bytes_uploaded in
      let done = set_full env.now (set_success b.bytes_uploaded env.now j) in
      let (said, row, _, _) =
        transit-allowed t j.id env.now s.catalog.jobs j u under_own_key (ground (arith, run)) in
      let jobs' = (transit t j.id env.now s.catalog.jobs).1 in
      let s' = with_jobs (finalize_progress j.id env.now jobs').1 s in
      let after = register_snapshot env j.system_id b j s' in
      let row' : find job_id j.id after.catalog.jobs ≡ some done =
        ap (λ c. find job_id j.id c.jobs) (register_snapshot-catalog env j.system_id b j s')
        ∙ find-step (finalize j.id env.now) jobs' j.id _ row
        ∙ ground arith in
      let wrote : write_fresh_job j.id after ≡ (reply 200 (fresh done), after) =
        wrote_found j.id after row' in
      let all : finish (complete_claimed env j b s) ≡ (reply 200 (fresh done), after) =
        ap
          (λ r. finish (
            store_step (r, jobs') s >>= λ s''. go (
              write_fresh_job j.id (
                register_snapshot env j.system_id b j
                  (with_jobs (finalize_progress j.id env.now s''.catalog.jobs).1 s'')))))
          said
        ∙ wrote in
      let unique' : Unique job_id after.catalog.jobs =
        subst (λ c. Unique job_id c.jobs) (sym (register_snapshot-catalog env j.system_id b j s'))
          (step-Unique (finalize j.id env.now) jobs' tt
            (step-Unique (transition t j.id env.now) s.catalog.jobs tt u)) in
      subst (λ a. Completed env s j b done a × Unique job_id a.1.catalog.jobs) (sym all)
        ((refl, row', register_at-snapshots env s j b (snapshot_repository b j s) s'), unique')

  -- Where job keys are distinct, the completion report of the owner of a running job is answered
  -- with the job as it is stored then: successful, finished now, with the bytes of the report and
  -- 100 percent. One snapshot is added, with the report's engine id, if that is not empty and the
  -- job's policy has a repository, and none otherwise.
  pub serve-Completed :
      (b : CompleteBody)
      → j.status ≡ running
      → Completed env s j b
          (set_full env.now (set_success b.bytes_uploaded env.now j))
          (serve env (call_complete (decoded b)) (some j.system_id) (some id) s)
  unfolding serve complete_agent_job
  serve-Completed b run =
      rw (claim_job-owned j.system_id id (decoded b) s j there refl)
        (complete_claimed-Completed b run).0

  -- Job keys stay distinct.
  pub serve-Unique :
      (b : CompleteBody)
      → j.status ≡ running
      → Unique job_id
          (serve env (call_complete (decoded b)) (some j.system_id) (some id) s).1.catalog.jobs
  unfolding serve complete_agent_job
  serve-Unique b run =
      rw (claim_job-owned j.system_id id (decoded b) s j there refl)
        (complete_claimed-Completed b run).1
