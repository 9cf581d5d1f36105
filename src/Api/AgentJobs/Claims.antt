-- ===== src/Api/AgentJobs/Claims.antt =====
-- internal/api/agent_jobs.go: how claimJob ends, and what the parts that answer leave as it was.
use opensourcebackup.Api.AgentJobs.{
  Answer, CompleteBody, JobReply, Response, claim_job, error_with, refuse, register_at,
  register_snapshot, safe_error_message, snapshot_repository, store_step, write_decision,
  write_fresh_job, write_job,
}
use opensourcebackup.Prelude.{
  ==_iff, Bool-cases, Option, Option-cases, ap, inl, inr, none, refl, some, ℕ, ◌==◌, ◌≡◌, ◌⊎◌,
}
use opensourcebackup.Api.Http.{Body, Flow, finish, go, http_status_for_error, stop, ◌>>=◌}
use opensourcebackup.Api.Server.{Server, Surroundings, with_jobs}
use opensourcebackup.Catalog.Dispatch.Guard.{Database, DispatchDecision, DispatchError}
use opensourcebackup.Catalog.Jobs.Queries.{get_by_id}
use opensourcebackup.Catalog.Jobs.Statements.{Outcome}
use opensourcebackup.Catalog.Models.{BackupJob, Result, StoreError, err, job_id, not_found, ok}
use opensourcebackup.Prelude.Table.{find}

pub record Claimed (system path_id : Option ℕ) (s : Server) (j : BackupJob) : Type 0 where
  pub system_id : ℕ
  pub id : ℕ
  pub caller : system ≡ some system_id
  pub path : path_id ≡ some id
  pub there : find job_id id s.catalog.jobs ≡ some j
  pub owned : j.system_id ≡ system_id

-- claimJob ends the handler with an error that changes nothing, or gives a job of the caller.
pub claim_job-cases :
    {B : Type 0} (system path_id : Option ℕ) (b : Body B) (s : Server)
    → let claim = claim_job (record { system = system; path_id = path_id; body = b }) s in
      ((answer : Response JobReply) × (claim ≡ stop (answer, s)))
      ⊎ ((j : BackupJob) × Claimed system path_id s j × (claim ≡ go j))
unfolding claim_job get_by_id
claim_job-cases none path_id b s = inl (error_with 401 "authorization required", refl)
claim_job-cases (some system_id) none b s = inl (error_with 400 "invalid job id", refl)
claim_job-cases (some system_id) (some id) b s =
    elim (Option-cases (find job_id id s.catalog.jobs)) [
      | inl missing ↦ inl (
        error_with (http_status_for_error not_found) (safe_error_message not_found),
        rw missing refl,
      )
      | inr (j, there) ↦ elim (Bool-cases (j.system_id == system_id)) [
        | inl same ↦ inr (
          j,
          record {
            system_id = system_id;
            id = id;
            caller = refl;
            path = refl;
            there = there;
            owned = (==_iff j.system_id system_id).0 same;
          },
          rw (there, same) refl,
        )
        | inr differs ↦ inl (error_with 404 "catalog: not found", rw (there, differs) refl)
      ]
    ]

pub finish-store_step :
    (P : Answer → Type 0) (o : Outcome) (s : Server) (k : Server → Flow Answer Answer)
    → ((e : StoreError) → P (refuse (with_jobs o.1 s) e))
    → P (finish (k (with_jobs o.1 s)))
    → P (finish (store_step o s >>= k))
finish-store_step P (ok _, jobs) s k e h = h
finish-store_step P (err x, jobs) s k e h = e x

pub write_job-state : (o : Result StoreError BackupJob) (s : Server) → (write_job o s).1 ≡ s
write_job-state (ok j) s = refl
write_job-state (err e) s = refl

pub write_fresh_job-state : (id : ℕ) (s : Server) → (write_fresh_job id s).1 ≡ s
unfolding write_fresh_job
write_fresh_job-state id s = write_job-state (get_by_id id s.catalog.jobs) s

register_at-catalog :
    (env : Surroundings) (repo : Option ℕ) (system_id : ℕ) (b : CompleteBody) (mine : BackupJob)
    (s : Server)
    → (register_at env repo system_id b mine s).catalog ≡ s.catalog
register_at-catalog env none system_id b mine s = refl
register_at-catalog env (some repo) system_id b mine s = refl

pub register_snapshot-catalog :
    (env : Surroundings) (system_id : ℕ) (b : CompleteBody) (mine : BackupJob) (s : Server)
    → (register_snapshot env system_id b mine s).catalog ≡ s.catalog
unfolding register_snapshot
register_snapshot-catalog env system_id b mine s =
    register_at-catalog env (snapshot_repository b mine s) system_id b mine s

pub write_decision-catalog :
    (id : ℕ) (s : Server) (r : Result DispatchError DispatchDecision) (db : Database)
    → (write_decision id s (r, db)).1.catalog ≡ db
unfolding write_decision
write_decision-catalog id s (err e) db = refl
write_decision-catalog id s (ok d) db = elim (Bool-cases d.allowed) [
  | inl admitted_now ↦
      rw admitted_now (ap (λ t. t.catalog) (write_fresh_job-state id (record s { catalog = db })))
  | inr held ↦ rw held refl
]
