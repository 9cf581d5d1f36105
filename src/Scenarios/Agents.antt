-- ===== src/Scenarios/Agents.antt =====
-- The theorems on the calls of agents, for the agent of system 10.
use opensourcebackup.Prelude.{[], arith, false, refl, some, ◌∷◌, ◌≡◌, ◌≢◌}
use opensourcebackup.Api.AgentJobs.{CompleteBody}
use opensourcebackup.Api.AgentJobs.Isolation.{serve-other}
use opensourcebackup.Api.AgentJobs.Ownership.{Owns, call_complete, serve, serve-hidden}
use opensourcebackup.Api.AgentJobs.Reports.{Completed, serve-Completed, serve-late}
use opensourcebackup.Api.Http.{decoded, error, error_with}
use opensourcebackup.Catalog.Jobs.Rows.{set_full, set_success}
use opensourcebackup.Catalog.Jobs.Transitions.{complete}
use opensourcebackup.Catalog.Models.{job_id, ok}
use opensourcebackup.Catalog.Repositories.{
  RepositoryCredentialReference, active_reference, backup_write,
}
use opensourcebackup.Prelude.Table.{find}
use opensourcebackup.Scenarios.Data.{
  a_policy, a_repository, a_server, busy, finished, some_jobs, some_jobs-Unique, stranger,
  surroundings,
}
use opensourcebackup.Secrets.{
  Vault, legacy_fallback_permitted, list_references, purpose_for_job_type, resolve_for_agent,
  select_reference,
}
use opensourcebackup.Secrets.Authorization.{
  Authorized, legacy_fallback_permitted-resolve_for_agent, resolve_for_agent-Authorized,
}

abbrev report : CompleteBody
report = record { engine_snapshot_id = "cc33"; bytes_uploaded = 700; paths = "/etc" ∷ [] }

-- Job 4 belongs to system 11.
not_owned : ¬ Owns 10 4 a_server
unfolding find
not_owned (j, there, own) = ground (arith, there, own)

serve-hidden_example :
    serve surroundings (call_complete (decoded report)) (some 10) (some 4) a_server
    ≡ (error_with 404 "catalog: not found", a_server)
unfolding find
serve-hidden_example =
    serve-hidden surroundings 10 4 a_server (call_complete (decoded report)) not_owned

foreign : stranger.system_id ≢ 10
foreign e = ground arith

serve-other_example :
    find job_id 4
      (serve surroundings
        (call_complete (decoded report))
        (some 10)
        (some 2)
        a_server).1.catalog.jobs
    ≡ some stranger
unfolding find
serve-other_example =
    serve-other surroundings 4 stranger a_server some_jobs-Unique refl 10 (some 2) foreign
      (call_complete (decoded report))

serve-late_example :
    serve surroundings (call_complete (decoded report)) (some 10) (some 3) a_server
    ≡ (error 409, a_server)
unfolding find
serve-late_example =
    serve-late surroundings a_server 3 finished some_jobs-Unique refl
      (call_complete (decoded report)) (complete 700) refl refl

serve-Completed_example :
    Completed surroundings a_server busy report
      (set_full 2_000 (set_success 700 2_000 busy))
      (serve surroundings (call_complete (decoded report)) (some 10) (some 2) a_server)
unfolding find
serve-Completed_example =
    serve-Completed surroundings a_server 2 busy some_jobs-Unique refl report refl

-- The vault of the small catalog, with one reference for backups.
abbrev write_key : RepositoryCredentialReference
write_key = record {
  id = 60;
  repository_id = 30;
  purpose = backup_write;
  provider_type = "vault";
  reference = "kv/backup";
  status = active_reference;
  created_at = 1;
  updated_at = 1;
}

abbrev vault : Vault
vault = record {
  jobs = some_jobs;
  policies = a_policy ∷ [];
  repositories = a_repository ∷ [];
  references = write_key ∷ [];
}

resolved : resolve_for_agent vault 10 2 ≡ ok write_key
unfolding resolve_for_agent find purpose_for_job_type select_reference list_references
resolved = refl

resolve_for_agent-Authorized_example : Authorized vault 10 2 write_key
resolve_for_agent-Authorized_example = resolve_for_agent-Authorized vault 10 2 write_key resolved

legacy_fallback_permitted-resolve_for_agent_example :
    legacy_fallback_permitted (list_references 30 (write_key ∷ [])) backup_write ≡ false
legacy_fallback_permitted-resolve_for_agent_example =
    legacy_fallback_permitted-resolve_for_agent vault 10 2 write_key resolved
