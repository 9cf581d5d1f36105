-- ===== src/Api/Retention/Overwriting.antt =====
-- internal/api/agent_retention.go: which jobs the completion of a retention job changes.
use opensourcebackup.Catalog.Jobs.Statements
use opensourcebackup.Prelude.{==_refl, List, String, ap, count_where, refl, some, ℕ, ◌∙◌, ◌≡◌}
use opensourcebackup.Api.Http.{decoded, reply}
use opensourcebackup.Api.Retention.{handle_complete_retention_job}
use opensourcebackup.Api.Server.{Server, Surroundings}
use opensourcebackup.Catalog.Jobs.Queries.{get_by_id}
use opensourcebackup.Catalog.Jobs.Statements.{Jobs, any_status, on_job, update_or_missing}
use opensourcebackup.Catalog.Models.{BackupJob, job_id, ok, success}
use opensourcebackup.Prelude.Table.{
  Unique, count_where-key, find, find-key, find-update_where, hits,
}

abbrev pub completed : ℕ → BackupJob → BackupJob
completed now j = record j { status = success; finished_at = some now }

update-found :
    (now id : ℕ) (jobs : Jobs) (j : BackupJob)
    → Unique job_id jobs
    → find job_id id jobs ≡ some j
    → ((Statements.update (completed now j) jobs).0 ≡ ok tt)
      × (find job_id id (Statements.update (completed now j) jobs).1 ≡ some (completed now j))
unfolding Statements.update update_or_missing
update-found now id jobs j u h =
    let key : j.id ≡ id = find-key job_id id jobs h in
    let one_hit : count_where (on_job j.id any_status) jobs ≡ 1 =
      count_where-key job_id j.id (λ x. any_status x.status) jobs u
      ∙ ap (hits job_id (λ x. any_status x.status)) (ap (λ k. find job_id k jobs) key ∙ h) in
    rw one_hit
      (refl, find-update_where job_id _ _ (λ _. refl) id jobs ∙ rw h (rw (==_refl j.id) refl))

module _ (env : Surroundings) (id : ℕ) (removed : List String) (s : Server) (j : BackupJob) where
  -- Where job keys are distinct, the completion of any job by any authenticated agent, whether the
  -- job is of the agent's system or not, is answered with success, and the job is successful and
  -- finished now whatever its type and status were.
  pub handle_complete_retention_job-completed :
      (caller : ℕ)
      → Unique job_id s.catalog.jobs
      → find job_id id s.catalog.jobs ≡ some j
      → let (answer, after) =
          handle_complete_retention_job env
            (record { system = some caller; path_id = some id; body = decoded removed })
            s in
        (answer ≡ reply 200 "ok") × (find job_id id after.catalog.jobs ≡ some (completed env.now j))
  unfolding handle_complete_retention_job get_by_id
  handle_complete_retention_job-completed caller u h =
      let (said, row) = update-found env.now id s.catalog.jobs j u h in rw (h, said) (refl, row)
