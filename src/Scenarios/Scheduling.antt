-- ===== src/Scenarios/Scheduling.antt =====
-- The theorems on the scheduler, for the policy of the small catalog.
use opensourcebackup.Prelude.{
  Option, String, any_where, arith, bit, count_where, if◌then◌else◌, is_some, ltb, none, some, ℕ,
  ◌&&◌, ◌+◌, ◌==◌, ◌≡◌,
}
use opensourcebackup.Scenarios.Data.{a_policy, nightly, some_jobs}
use opensourcebackup.Scheduler.Counts.{dispatch_backup-count, ran_on, waits_on}
use opensourcebackup.Scheduler.Dispatch.{dispatch_backup}
use opensourcebackup.Scheduler.Window.{
  in_backup_window, minutes_until, window_contains, window_contains_lem,
}

-- From 22:00 to 06:00, at 00:30.
window_contains_lem_example :
    window_contains 1_320 360 30 ≡ ltb (minutes_until 1_320 30) (minutes_until 1_320 360)
window_contains_lem_example =
    window_contains_lem 1_320 360 30 (omega arith) (omega arith) (omega arith)

-- The INSERT for system 11 fails.
abbrev inserts : ℕ → Option (ℕ × ℕ)
inserts id = if id == 10 then some (77, 3_000) else none

abbrev no_scan : String → ℕ × ℕ
no_scan _ = (0, 0)

dispatch_backup-count_example :
    count_where (waits_on 20 10) (dispatch_backup inserts no_scan 30 a_policy some_jobs)
    ≡ count_where (waits_on 20 10) some_jobs
      + bit (
          in_backup_window no_scan nightly 30
          && (is_some (inserts 10) && any_where (ran_on 20 10) some_jobs))
dispatch_backup-count_example = dispatch_backup-count inserts no_scan 30 a_policy 10 some_jobs
