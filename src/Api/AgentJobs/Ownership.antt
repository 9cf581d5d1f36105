-- ===== src/Api/AgentJobs/Ownership.antt =====
-- internal/api/agent_jobs.go: claimJob in front of every handler, and what it answers on a job that is
-- missing or not the caller's.
use opensourcebackup.Api.Http.{Body, decoded, http_status_for_error, safe_error_message, stop}
use opensourcebackup.Prelude.{
  ==_iff, Bool-cases, Option, Option-cases, String, inl, inr, none, refl, some, ℕ, ◌==◌, ◌≡◌,
}
use opensourcebackup.Api.AgentJobs.{
  Answer, CompleteBody, cancel_status_agent_job, cancelled_agent_job, claim_job, complete_agent_job,
  error_with, fail_agent_job, progress_agent_job, safe_error_message, start_agent_job,
}
use opensourcebackup.Api.Server.{Server, Surroundings}
use opensourcebackup.Catalog.Jobs.Queries.{get_by_id}
use opensourcebackup.Catalog.Models.{BackupJob, JobProgress, job_id}
use opensourcebackup.Prelude.Table.{find}

-- A call of an agent on the job of the path, with the body that the handler decodes.
pub data AgentCall : Type 0 where
  call_start call_cancel_status call_cancelled : AgentCall
  call_complete : Body CompleteBody → AgentCall
  call_fail : Body String → AgentCall
  call_progress : Body JobProgress → AgentCall

abbrev pub no_body : Body (Unit {0})
no_body = decoded tt

-- The route of the call.
unfoldable pub serve : Surroundings → AgentCall → Option ℕ → Option ℕ → Server → Answer
serve env call_start system path_id s =
    start_agent_job env (record { system = system; path_id = path_id; body = no_body }) s
serve env call_cancel_status system path_id s =
    cancel_status_agent_job env (record { system = system; path_id = path_id; body = no_body }) s
serve env call_cancelled system path_id s =
    cancelled_agent_job env (record { system = system; path_id = path_id; body = no_body }) s
serve env (call_complete b) system path_id s =
    complete_agent_job env (record { system = system; path_id = path_id; body = b }) s
serve env (call_fail b) system path_id s =
    fail_agent_job env (record { system = system; path_id = path_id; body = b }) s
serve env (call_progress b) system path_id s =
    progress_agent_job env (record { system = system; path_id = path_id; body = b }) s

-- The job with the key belongs to the system.
abbrev pub Owns : ℕ → ℕ → Server → Type 0
Owns system_id id s =
    (j : BackupJob) × (find job_id id s.catalog.jobs ≡ some j) × (j.system_id ≡ system_id)

-- The text of the answer on a job that is missing, and on one of another system.
abbrev pub hidden_text : Option BackupJob → String
hidden_text none = "not found"
hidden_text (some _) = "catalog: not found"

claim_job-hidden :
    {B : Type 0} (system_id id : ℕ) (b : Body B) (s : Server)
    → ¬ Owns system_id id s
    → claim_job (record { system = some system_id; path_id = some id; body = b }) s
      ≡ stop (error_with 404 (hidden_text (find job_id id s.catalog.jobs)), s)
unfolding claim_job get_by_id http_status_for_error safe_error_message
claim_job-hidden system_id id b s h = elim (Option-cases (find job_id id s.catalog.jobs)) [
  | inl missing ↦ rw missing refl
  | inr (j, there) ↦ elim (Bool-cases (j.system_id == system_id)) [
    | inl same ↦ absurd (h (j, there, (==_iff j.system_id system_id).0 same))
    | inr differs ↦ rw (there, differs) refl
  ]
]

module _ (env : Surroundings) (system_id id : ℕ) (s : Server) where
  -- A call on one of the six job routes, on a job that does not exist or belongs to another system,
  -- is answered with 404 whatever its body is, and changes nothing. The text of the answer is "not
  -- found" if the job does not exist, and "catalog: not found" if it is of another system.
  pub serve-hidden :
      (call : AgentCall)
      → ¬ Owns system_id id s
      → serve env call (some system_id) (some id) s
        ≡ (error_with 404 (hidden_text (find job_id id s.catalog.jobs)), s)
  unfolding serve start_agent_job cancel_status_agent_job cancelled_agent_job complete_agent_job
      fail_agent_job progress_agent_job
  serve-hidden call_start h = rw (claim_job-hidden system_id id no_body s h) refl
  serve-hidden call_cancel_status h = rw (claim_job-hidden system_id id no_body s h) refl
  serve-hidden call_cancelled h = rw (claim_job-hidden system_id id no_body s h) refl
  serve-hidden (call_complete b) h = rw (claim_job-hidden system_id id b s h) refl
  serve-hidden (call_fail b) h = rw (claim_job-hidden system_id id b s h) refl
  serve-hidden (call_progress b) h = rw (claim_job-hidden system_id id b s h) refl
