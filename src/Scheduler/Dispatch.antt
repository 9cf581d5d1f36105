-- ===== src/Scheduler/Dispatch.antt =====
-- internal/scheduler/scheduler.go: what an entry does when its time comes. The key and time that the
-- database gives a new row are an argument, `none` where the INSERT fails.
use opensourcebackup.Catalog.RestoreTests
use opensourcebackup.Catalog.Jobs.Statements
use opensourcebackup.Prelude.{
  Bool, List, Option, String, [], any_where, if◌then◌else◌, none, not, some, ℕ, ◌&&◌, ◌==◌, ◌∷◌,
}
use opensourcebackup.Catalog.Jobs.Queries.{latest_by_policy_id, list}
use opensourcebackup.Catalog.Jobs.Statements.{Jobs, no_progress}
use opensourcebackup.Catalog.Models.{
  BackupJob, BackupPolicy, JobType, RestoreTest, Result, Snapshot, StoreError, backup, err,
  is_backup, ok, pending, retention,
}
use opensourcebackup.Catalog.RestoreTests.{RestoreTests}
use opensourcebackup.Catalog.Snapshots.{Snapshots, list_by_job_id}
use opensourcebackup.Scheduler.Window.{in_backup_window}

abbrev pub ran_policy : ℕ → BackupJob → Bool
ran_policy policy_id j = (j.policy_id == policy_id) && is_backup j.type

abbrev pub has_id : ℕ → List ℕ → Bool
has_id id ids = any_where (λ x. x == id) ids

-- The keys of the map `seen`; Go's order over a map is unspecified.
unfoldable pub distinct_systems : ℕ → Jobs → List ℕ
distinct_systems policy_id [] = []
distinct_systems policy_id (j ∷ js) =
    let rest = distinct_systems policy_id js in
    if ran_policy policy_id j && not (has_id j.system_id rest) then j.system_id ∷ rest else rest

unfoldable pub systems_for_policy : ℕ → Jobs → List ℕ
systems_for_policy policy_id jobs = distinct_systems policy_id (list jobs)

abbrev pub new_job : ℕ → ℕ → JobType → BackupJob
new_job policy_id system_id t = record {
  id = 0;
  system_id = system_id;
  policy_id = policy_id;
  type = t;
  started_at = none;
  finished_at = none;
  status = pending;
  bytes_scanned = none;
  bytes_uploaded = none;
  error_summary = none;
  raw_output = none;
  created_at = 0;
  progress = no_progress;
  last_progress_at = none;
  cancel_requested_at = none;
  cancel_reason = "";
}

abbrev pub create_row : Option (ℕ × ℕ) → BackupJob → Jobs → Jobs
create_row none j jobs = jobs
create_row (some (new_id, db_now)) j jobs = (Statements.create new_id db_now j jobs).1

-- One Create for each system, whose failure is logged.
module _ (inserts : ℕ → Option (ℕ × ℕ)) where
  unfoldable pub create_jobs : ℕ → JobType → List ℕ → Jobs → Jobs
  create_jobs policy_id t [] jobs = jobs
  create_jobs policy_id t (id ∷ ids) jobs =
      create_jobs policy_id t ids (create_row (inserts id) (new_job policy_id id t) jobs)

  unfoldable pub dispatch_backup : (String → ℕ × ℕ) → ℕ → BackupPolicy → Jobs → Jobs
  dispatch_backup scan now_min p jobs =
      if in_backup_window scan p.schedule_config now_min
      then create_jobs p.id backup (systems_for_policy p.id jobs) jobs
      else jobs

  unfoldable pub dispatch_retention : BackupPolicy → Jobs → Jobs
  dispatch_retention p jobs = create_jobs p.id retention (systems_for_policy p.id jobs) jobs

-- snaps[len(snaps)-1].
abbrev last_row {ℓ} : {A : Type ℓ} → List A → Option A
last_row [] = none
last_row (x ∷ []) = some x
last_row (x ∷ y ∷ xs) = last_row (y ∷ xs)

abbrev scheduled_test : BackupJob → Snapshot → RestoreTest
scheduled_test j sn = record {
  id = 0;
  snapshot_id = sn.id;
  system_id = j.system_id;
  repository_id = sn.repository_id;
  status = pending;
  target_path = none;
  started_at = none;
  finished_at = none;
  verified_files = none;
  verified_bytes = none;
  error_summary = none;
  created_at = 0;
  updated_at = 0;
}

abbrev create_test : Option (ℕ × ℕ) → BackupJob → Option Snapshot → RestoreTests → RestoreTests
create_test (some (new_id, db_now)) j (some sn) tests =
    (RestoreTests.create new_id db_now (scheduled_test j sn) tests).1
create_test _ j _ tests = tests

abbrev test_of_latest :
    Option (ℕ × ℕ) → Result StoreError BackupJob → Snapshots → RestoreTests → RestoreTests
test_of_latest insert (err e) snapshots tests = tests
test_of_latest insert (ok j) snapshots tests =
    create_test insert j (last_row (list_by_job_id j.id snapshots)) tests

unfoldable pub dispatch_restore_test :
    Option (ℕ × ℕ) → BackupPolicy → Jobs → Snapshots → RestoreTests → RestoreTests
dispatch_restore_test insert p jobs snapshots tests =
    test_of_latest insert (latest_by_policy_id p.id jobs) snapshots tests
