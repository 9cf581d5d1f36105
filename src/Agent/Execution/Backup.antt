-- ===== src/Agent/Execution/Backup.antt =====
-- internal/agent/agent.go, executeJob: a backup from the policy to the report.
use opensourcebackup.Prelude.{
  Bool, List, Option, String, [], if◌then◌else◌, none, some, str_eq, ℕ, ◌∷◌,
}
use opensourcebackup.Agent.Client.{ClientError}
use opensourcebackup.Agent.Delivery.{Desk}
use opensourcebackup.Agent.Execution.{
  AgentConfig, BackupOptions, BackupResult, BackupRun, ControlPlaneClient, Prepared, Runner,
  Workstation, cancel_seen, cancelled_event, complete_event, fail_event, prepared, report_from,
  unprepared,
}
use opensourcebackup.Agent.Execution.Progress.{on_progress_all}
use opensourcebackup.Agent.Outbox.{Event}
use opensourcebackup.Api.AgentJobs.Ownership.{call_progress, call_start}
use opensourcebackup.Api.Http.{decoded}
use opensourcebackup.Catalog.Models.{BackupJob, BackupPolicy, JobProgress, Result, err, ok}
use opensourcebackup.Catalog.Repositories.{BackupRepository}

module _ {S : Type 0} (client : ControlPlaneClient S) (runner : Runner) (cfg : AgentConfig)
    (desk : Workstation) where
  abbrev with_repository : BackupPolicy → Result ClientError BackupRepository → Prepared
  with_repository p (err x) = unprepared (desk.error_text "repository lookup" x)
  with_repository p (ok r) = prepared p r

  abbrev with_repository_id : BackupPolicy → Option ℕ → S → Prepared
  with_repository_id p none s = unprepared "policy has no repository configured"
  with_repository_id p (some id) s = with_repository p (client.get_repository id s)

  abbrev with_policy : Result ClientError BackupPolicy → S → Prepared
  with_policy (err x) s = unprepared (desk.error_text "get policy" x)
  with_policy (ok p) s = with_repository_id p p.repository_id s

  -- The part of executeJob in front of StartJob.
  unfoldable pub prepare : BackupJob → S → Prepared
  prepare j s = with_policy (client.get_policy j.policy_id s) s

  unfoldable pub repo_location : BackupRepository → String
  repo_location r = if str_eq r.location "" then cfg.restic_repo else r.location

  unfoldable pub backup_options : BackupPolicy → BackupRepository → BackupOptions
  backup_options p r = record {
    repo = repo_location r;
    password = cfg.restic_password;
    includes = p.includes;
    excludes = p.excludes;
    tag_policy = p.id;
  }

  -- ReportProgress for each update that passes the throttle; its error is only logged.
  abbrev pub send_progress : ℕ → List JobProgress → S → S
  send_progress id [] s = s
  send_progress id (p ∷ ps) s = send_progress id ps (client.call (call_progress (decoded p)) id s).1

  abbrev pub ended_event :
      BackupJob → BackupPolicy → List (Result ClientError Bool) → Result String BackupResult → Event
  ended_event j p polls (ok r) = complete_event j.id r p.includes
  ended_event j p polls (err message) =
      if cancel_seen polls then cancelled_event j.id else fail_event j.id message

  -- The event that a finished backup is reported with.
  unfoldable pub backup_event : BackupJob → BackupPolicy → BackupRun → Event
  backup_event j p run = ended_event j p run.polls run.ended

  abbrev pub run_backup : BackupJob → BackupPolicy → BackupRun → Desk S → Desk S
  run_backup j p run d =
      report_from desk client.call (backup_event j p run)
        (record d { remote = send_progress j.id (on_progress_all run.updates) d.remote })

  -- A start that is refused or deferred leaves the job pending, without a report.
  abbrev pub started :
      BackupJob → BackupPolicy → BackupRepository → Option ClientError × S → Desk S → Desk S
  started j p r (some x, s) d = record d { remote = s }
  started j p r (none, s) d =
      run_backup j p (runner.backup (backup_options p r)) (record d { remote = s })

  abbrev pub execute_prepared : BackupJob → Prepared → Desk S → Desk S
  execute_prepared j (unprepared reason) d = report_from desk client.call (fail_event j.id reason) d
  execute_prepared j (prepared p r) d = started j p r (client.call call_start j.id d.remote) d

  unfoldable pub execute_job : BackupJob → Desk S → Desk S
  execute_job j d = execute_prepared j (prepare j d.remote) d
