-- ===== src/Agent/Execution.antt =====
-- internal/agent/agent.go: how the agent runs a job. What the control plane answers to a read is an
-- argument that looks at its state; a run of restic (internal/agent/restic) is given by what it
-- shows while it runs and how it ends.
pub mod Progress
pub mod Backup
pub mod Checks
pub mod Poll
pub mod Endings
use opensourcebackup.Prelude.{Bool, List, Option, String, [], false, true, ℕ, ◌∷◌}
use opensourcebackup.Agent.Client.{ClientError}
use opensourcebackup.Agent.Delivery.{ControlPlane, Desk, report_terminal}
use opensourcebackup.Agent.Execution.Progress.{Update}
use opensourcebackup.Agent.Outbox.{Event, WriteFault, kind_cancelled, kind_complete, kind_fail}
use opensourcebackup.Catalog.Models.{
  BackupJob, BackupPolicy, RestoreTest, Result, Snapshot, err, job_id, ok,
}
use opensourcebackup.Catalog.Repositories.{BackupRepository}

pub record AgentConfig : Type 0 where
  pub restic_password : String
  pub restic_repo : String
  pub restore_test_root : String

-- The reads of the control plane, its calls on jobs, and its calls on restore tests.
pub record ControlPlaneClient (S : Type 0) : Type 0 where
  pub call : ControlPlane S
  pub heartbeat : S → Option ClientError × S
  pub list_pending_jobs : S → Result ClientError (List BackupJob)
  pub get_policy : ℕ → S → Result ClientError BackupPolicy
  pub get_repository : ℕ → S → Result ClientError BackupRepository
  pub get_snapshot : ℕ → S → Result ClientError Snapshot
  pub claim_restore_test : S → Result ClientError RestoreTest × S
  pub complete_restore_test : ℕ → ℕ → ℕ → S → Option ClientError × S
  pub fail_restore_test : ℕ → String → S → Option ClientError × S

pub record BackupOptions : Type 0 where
  pub repo : String
  pub password : String
  pub includes : List String
  pub excludes : List String
  pub tag_policy : ℕ

pub record BackupResult : Type 0 where
  pub snapshot_id : String
  pub bytes_added : ℕ
  pub files_new : ℕ
  pub files_changed : ℕ

pub record RestoreOptions : Type 0 where
  pub repo : String
  pub password : String
  pub snapshot_id : String
  pub target_path : String
  pub restore_root : String

pub record RestoreResult : Type 0 where
  pub target_path : String
  pub verified_files : ℕ
  pub verified_bytes : ℕ

-- A backup: the progress with the times at which it shows, what the watcher hears when it asks for a
-- cancel request, and the end, an error with its text or the result.
pub record BackupRun : Type 0 where
  pub updates : List Update
  pub polls : List (Result ClientError Bool)
  pub ended : Result String BackupResult

pub record Runner : Type 0 where
  pub backup : BackupOptions → BackupRun
  pub verify_repo : String → String → Option String
  pub restore : RestoreOptions → Result String RestoreResult

-- The file system and the clock at a report, the texts of errors, and filepath.Join.
pub record Workstation : Type 0 where
  pub has_outbox : Bool
  pub fault : Option WriteFault
  pub removes : Bool
  pub now : ℕ
  pub error_text : String → ClientError → String
  pub join : String → ℕ → String

-- The watcher stops at the first request; an error is passed over.
unfoldable pub cancel_seen : List (Result ClientError Bool) → Bool
cancel_seen [] = false
cancel_seen (err _ ∷ polls) = cancel_seen polls
cancel_seen (ok true ∷ polls) = true
cancel_seen (ok false ∷ polls) = cancel_seen polls

-- The end of a job: the event of its kind, without a time.
abbrev pub fail_event : ℕ → String → Event
fail_event id reason = record {
  job_id = id;
  kind = kind_fail;
  snapshot_id = "";
  bytes = 0;
  paths = [];
  reason = reason;
  created_at = 0;
}

abbrev pub cancelled_event : ℕ → Event
cancelled_event id = record (fail_event id "stopped by operator") { kind = kind_cancelled }

abbrev pub complete_event : ℕ → BackupResult → List String → Event
complete_event id r includes = record (fail_event id "") {
  kind = kind_complete;
  snapshot_id = r.snapshot_id;
  bytes = r.bytes_added;
  paths = includes;
}

abbrev pub verified_event : ℕ → Event
verified_event id = record (fail_event id "") { kind = kind_complete }

-- A pending job whose policy and repository were read, or the reason why it cannot run.
pub data Prepared : Type 0 where
  prepared : BackupPolicy → BackupRepository → Prepared
  unprepared : String → Prepared

-- Every report goes through the outbox of the workstation.
abbrev pub report_from : {S : Type 0} → Workstation → ControlPlane S → Event → Desk S → Desk S
report_from desk cp e d = report_terminal cp desk.has_outbox desk.fault desk.removes desk.now e d
