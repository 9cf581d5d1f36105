-- ===== src/Api/Jobs.antt =====
-- internal/api/jobs.go: the handlers for operators on jobs. Keys are parsed by uuid.Parse; 0 is the
-- nil UUID. A failing Create of the database is not modelled.
use opensourcebackup.Api.Http.{
  Body, Response, decoded, delete_status, error, finish, go, http_status_for_error, reply, require,
  require_body, require_ok, require_true, ◌>>=◌, ◌>>◌,
}
use opensourcebackup.Catalog.Models.{
  BackupJob, DeleteError, JobStatus, Result, Snapshot, StoreError, err, ok, running,
}
use opensourcebackup.Prelude.{Bool, Option, String, any_where, none, not, some, true, ℕ, ◌==◌}
use opensourcebackup.Api.Server.{Server, Surroundings, with_jobs}
use opensourcebackup.Audit.{backup_cancelled, from_ip, with_details, with_severity, with_user_agent}
use opensourcebackup.Catalog.Jobs.Queries.{get_by_id, list, list_pending_by_system_id}
use opensourcebackup.Catalog.Jobs.Statements.{Jobs, Outcome, request_cancel}
use opensourcebackup.Audit
use opensourcebackup.Catalog.Jobs.Statements

pub data OperatorReply : Type 0 where
  job_view : BackupJob → OperatorReply
  jobs_view : Jobs → OperatorReply
  accepted no_job_content : OperatorReply

abbrev pub OperatorAnswer : Type 0
OperatorAnswer = Response OperatorReply × Server

-- The body of createJob, in which the status may be missing.
pub record NewJob : Type 0 where
  pub row : BackupJob
  pub given_status : Option JobStatus

abbrev reason_of : Body String → String
reason_of (decoded reason) = reason
reason_of _ = ""

abbrev or_running : Option JobStatus → JobStatus
or_running none = running
or_running (some s) = s

abbrev refused : Server → StoreError → OperatorAnswer
refused s e = (error (http_status_for_error e), s)

module _ (env : Surroundings) where
  abbrev cancel_flagged : String → ℕ → String → Outcome → Server → OperatorAnswer
  cancel_flagged agent id reason (err e, jobs) s = refused (with_jobs jobs s) e
  cancel_flagged agent id reason (ok _, jobs) s = (
    reply 202 accepted,
    record (with_jobs jobs s) {
      audit_log =
          Audit.append env.now
            (with_severity Audit.warning (
              with_details reason (
                with_user_agent agent (
                  from_ip env.client_ip
                    (Audit.by Audit.admin (Audit.event backup_cancelled Audit.job id))))))
            s.audit_log;
    },
  )

  -- The reason is optional: a body that does not decode gives none.
  unfoldable pub handle_cancel_job : String → Option ℕ → Body String → Server → OperatorAnswer
  handle_cancel_job agent path_id body s = finish do
    id ← require path_id (error 400, s)
    go (
        cancel_flagged agent id (reason_of body)
          (request_cancel id (reason_of body) env.now s.catalog.jobs) s)

  -- `given_system` is none where the query has no system_id, and some none where it does not parse.
  unfoldable pub handle_list_jobs : Option (Option ℕ) → Bool → Server → Response OperatorReply
  handle_list_jobs (some none) true s = error 400
  handle_list_jobs (some (some id)) true s =
      reply 200 (jobs_view (list_pending_by_system_id id s.catalog.jobs))
  handle_list_jobs _ _ s = reply 200 (jobs_view (list s.catalog.jobs))

  abbrev write_new_job : BackupJob × Jobs → Server → OperatorAnswer
  write_new_job (j, jobs) s = (reply 201 (job_view j), with_jobs jobs s)

  -- A missing status is "running".
  unfoldable pub handle_create_job : Body NewJob → Server → OperatorAnswer
  handle_create_job body s = finish do
    b ← require_body body (λ c. (error c, s))
    require_true (not (b.row.system_id == 0)) (error 400, s)
    require_true (not (b.row.policy_id == 0)) (error 400, s)
    let j = record b.row { status = or_running b.given_status }
    go (write_new_job (Statements.create env.new_id env.now j s.catalog.jobs) s)

  unfoldable pub handle_get_job : Option ℕ → Server → OperatorAnswer
  handle_get_job path_id s = finish do
    id ← require path_id (error 400, s)
    j ← require_ok (get_by_id id s.catalog.jobs) (refused s)
    go (reply 200 (job_view j), s)

  abbrev write_outcome : OperatorReply → ℕ → Outcome → Server → OperatorAnswer
  write_outcome r code (ok _, jobs) s = (reply code r, with_jobs jobs s)
  write_outcome r code (err e, jobs) s = refused (with_jobs jobs s) e

  unfoldable pub handle_update_job : Option ℕ → Body BackupJob → Server → OperatorAnswer
  handle_update_job path_id body s = finish do
    id ← require path_id (error 400, s)
    b ← require_body body (λ c. (error c, s))
    let j = record b { id = id }
    go (write_outcome (job_view j) 200 (Statements.update j s.catalog.jobs) s)

  abbrev write_deletion : Result DeleteError (Unit {0}) × Jobs → Server → OperatorAnswer
  write_deletion (ok _, jobs) s = (reply 204 no_job_content, with_jobs jobs s)
  write_deletion (err e, jobs) s = (error (delete_status e), with_jobs jobs s)

  unfoldable pub handle_delete_job : Option ℕ → Server → OperatorAnswer
  handle_delete_job path_id s = finish do
    id ← require path_id (error 400, s)
    let has_snapshots = λ (k : ℕ). any_where (λ (sn : Snapshot). sn.job_id == k) s.snapshots
    go (write_deletion (Statements.delete has_snapshots id s.catalog.jobs) s)
