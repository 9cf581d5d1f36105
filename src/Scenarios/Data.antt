-- ===== src/Scenarios/Data.antt =====
-- A small catalog: one system with a policy and a repository, four of its jobs, the snapshots of the
-- last two, and a restore test of the older one.
use opensourcebackup.Prelude.{String, [], false, none, refl, some, ℕ, ◌*◌, ◌∷◌}
use opensourcebackup.Api.Server.{Server, Surroundings}
use opensourcebackup.Catalog.Dispatch.Guard.{Database}
use opensourcebackup.Catalog.Jobs.Statements.{Jobs, no_progress}
use opensourcebackup.Catalog.Models.{
  BackupJob, BackupPolicy, JobStatus, RestoreTest, RetentionPlan, ScheduleConfig, Snapshot, backup,
  job_id, pending, running, second, success,
}
use opensourcebackup.Catalog.OperationState.{active}
use opensourcebackup.Catalog.Repositories.{
  BackupRepository, RepositorySecurityPosture, legacy, no_protection, unknown_backend,
  unknown_provenance,
}
use opensourcebackup.Catalog.Systems.{System}
use opensourcebackup.Prelude.Table.{Unique, find}

abbrev base_job : ℕ → JobStatus → BackupJob
base_job id s = record {
  id = id;
  system_id = 10;
  policy_id = 20;
  type = backup;
  started_at = none;
  finished_at = none;
  status = s;
  bytes_scanned = none;
  bytes_uploaded = none;
  error_summary = none;
  raw_output = none;
  created_at = 5;
  progress = no_progress;
  last_progress_at = none;
  cancel_requested_at = none;
  cancel_reason = "";
}

abbrev pub waiting : BackupJob
waiting = base_job 1 pending

abbrev pub busy : BackupJob
busy = base_job 2 running

abbrev pub finished : BackupJob
finished = record (base_job 3 success) { finished_at = some 9; bytes_uploaded = some 100 }

abbrev pub stranger : BackupJob
stranger = record (base_job 4 running) { system_id = 11 }

abbrev pub some_jobs : Jobs
some_jobs = waiting ∷ busy ∷ finished ∷ stranger ∷ []

pub some_jobs-Unique : Unique job_id some_jobs
unfolding find
some_jobs-Unique = (refl, (refl, (refl, (refl, tt))))

abbrev pub no_rules : RetentionPlan
no_rules = record {
  keep_last = 0;
  keep_daily = 0;
  keep_weekly = 0;
  keep_monthly = 0;
  keep_yearly = 0;
}

abbrev pub nightly : ScheduleConfig
nightly = record {
  cron = "0 2 * * *";
  timezone = "UTC";
  window_start = "";
  window_end = "";
  if_missed = "";
  restore_test_cron = "";
  retention_cron = "";
  verify_cron = "";
  verify_full = false;
}

abbrev pub a_policy : BackupPolicy
a_policy = record {
  id = 20;
  name = "nightly";
  includes = "/etc" ∷ [];
  excludes = [];
  schedule = none;
  schedule_config = nightly;
  bandwidth_limit_kbps = 0;
  retention_plan = no_rules;
  engine = "restic";
  pre_hooks = [];
  post_hooks = [];
  repository_id = some 30;
  created_at = 1;
}

abbrev pub a_system : System
a_system = record {
  id = 10;
  hostname = "db1";
  os = none;
  agent_version = none;
  last_seen = some 1_000;
  tags = [];
  risk_class = "";
  operation_state = active;
  operation_state_changed_at = none;
  created_at = 1;
}

abbrev pub unknown_posture : RepositorySecurityPosture
unknown_posture = record {
  encryption = unknown_provenance;
  object_lock = unknown_provenance;
  immutability = unknown_provenance;
}

abbrev pub a_repository : BackupRepository
a_repository = record {
  id = 30;
  type = "local";
  location = "/srv";
  backend_type = unknown_backend;
  management_mode = legacy;
  encryption_mode = none;
  object_lock_enabled = false;
  immutable_mode = no_protection;
  security_posture = unknown_posture;
  retention_policy_id = none;
  created_at = 1;
}

-- 2026, in nanoseconds since Go's zero time.
abbrev pub a_date : ℕ
a_date = 63_900_000_000 * second

abbrev pub a_snapshot : ℕ → String → Snapshot
a_snapshot id engine_id = record {
  id = id;
  job_id = 3;
  engine_snapshot_id = engine_id;
  repository_id = 30;
  created_at = a_date;
  hostname = none;
  paths = [];
  checksum_status = "unverified";
}

abbrev pub tested : RestoreTest
tested = record {
  id = 50;
  snapshot_id = 40;
  system_id = 10;
  repository_id = 30;
  status = success;
  target_path = none;
  started_at = some 6;
  finished_at = none;
  verified_files = some 3;
  verified_bytes = some 300;
  error_summary = none;
  created_at = 5;
  updated_at = 7;
}

abbrev pub a_database : Database
a_database = record { jobs = some_jobs; policies = a_policy ∷ []; systems = a_system ∷ [] }

-- Before anything runs.
abbrev pub quiet_database : Database
quiet_database = record a_database { jobs = waiting ∷ finished ∷ [] }

abbrev pub a_server : Server
a_server = record {
  catalog = a_database;
  snapshots = a_snapshot 40 "aa11" ∷ a_snapshot 41 "bb22" ∷ [];
  restore_tests = tested ∷ [];
  repositories = a_repository ∷ [];
  audit_log = [];
}

abbrev pub surroundings : Surroundings
surroundings = record {
  now = 2_000;
  new_id = 99;
  dispatch = none;
  faults = λ _. false;
  uuid_text = λ _. "db1";
  removed_text = λ _. "removed_snapshots";
  client_ip = "";
}
