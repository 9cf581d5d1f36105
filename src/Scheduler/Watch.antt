-- ===== src/Scheduler/Watch.antt =====
-- internal/scheduler/scheduler.go: the checks that run on tickers, the dead-man's switch, the cleaner
-- of restore tests and the reaper of jobs.
use opensourcebackup.Catalog.RestoreTests
use opensourcebackup.Prelude.{
  Bool, List, Option, String, [], if◌then◌else◌, ltb, none, not, some, str_eq, ℕ, ◌&&◌, ◌*◌, ◌++◌,
  ◌-◌, ◌/◌, ◌∷◌,
}
use opensourcebackup.Catalog.Jobs.Queries.{latest_by_policy_id}
use opensourcebackup.Catalog.Jobs.Statements.{Jobs, fail_stale_jobs}
use opensourcebackup.Catalog.Models.{
  BackupJob, BackupPolicy, RestoreTest, Result, StoreError, err, failed, hour, is_running, minute,
  ok,
}
use opensourcebackup.Catalog.RestoreTests.{RestoreTests}
use opensourcebackup.Scheduler.Entries.{backup_cron}

pub data Warning : Type 0 where
  no_job_ever_ran : String → Warning
  overdue : String → ℕ → Warning

abbrev warning_of : BackupPolicy → ℕ → Result StoreError BackupJob → List Warning
warning_of p deadline (err _) = no_job_ever_ran p.name ∷ []
warning_of p deadline (ok j) =
    if ltb j.created_at deadline then overdue p.name j.created_at ∷ [] else []

-- One and a half intervals before now.
abbrev deadline_at : ℕ → ℕ → ℕ
deadline_at now interval = now - interval * 3 / 2

abbrev check_interval : ℕ → BackupPolicy → Jobs → Option ℕ → List Warning
check_interval now p jobs none = []
check_interval now p jobs (some interval) =
    warning_of p (deadline_at now interval) (latest_by_policy_id p.id jobs)

-- `cron_interval` is what the cron library gives for the time between the next two runs.
unfoldable pub check_policy : (String → Option ℕ) → ℕ → Jobs → BackupPolicy → List Warning
check_policy cron_interval now jobs p =
    if str_eq (backup_cron p) ""
    then []
    else check_interval now p jobs (cron_interval (backup_cron p))

unfoldable pub check_dead_man : (String → Option ℕ) → ℕ → Jobs → List BackupPolicy → List Warning
check_dead_man cron_interval now jobs [] = []
check_dead_man cron_interval now jobs (p ∷ ps) =
    check_policy cron_interval now jobs p ++ check_dead_man cron_interval now jobs ps

abbrev stale_after : ℕ
stale_after = 30 * minute

-- The reason is the text of fmt.Sprintf with the duration.
abbrev timed_out : String → RestoreTest → RestoreTest
timed_out reason rt = record rt { status = failed; error_summary = some reason }

abbrev pub is_stale_test : ℕ → RestoreTest → Bool
is_stale_test now rt = is_running rt.status && not (ltb (now - stale_after) rt.updated_at)

-- The loop over the tests that were listed; an Update that finds no row is logged only.
unfoldable pub clean_listed : String → ℕ → ℕ → RestoreTests → RestoreTests → RestoreTests
clean_listed reason now db_now [] tests = tests
clean_listed reason now db_now (rt ∷ rts) tests =
    let rest =
      clean_listed reason now db_now rts
        (RestoreTests.update (timed_out reason rt) db_now tests).1 in
    if is_stale_test now rt then rest else clean_listed reason now db_now rts tests

unfoldable pub clean_stale_restore_tests : String → ℕ → ℕ → RestoreTests → RestoreTests
clean_stale_restore_tests reason now db_now tests =
    clean_listed reason now db_now (RestoreTests.list tests) tests

abbrev progress_grace : ℕ
progress_grace = 30 * minute

abbrev start_grace : ℕ
start_grace = 12 * hour

abbrev pending_grace : ℕ
pending_grace = 6 * hour

-- One tick of runStaleJobReaper.
unfoldable pub reap_stale_jobs : ℕ → ℕ → ℕ → Jobs → ℕ × Jobs
reap_stale_jobs now db_now db_later jobs =
    fail_stale_jobs progress_grace start_grace pending_grace now db_now db_later jobs
