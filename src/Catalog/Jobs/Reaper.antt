-- ===== src/Catalog/Jobs/Reaper.antt =====
-- internal/catalog/jobs.go, FailStaleJobs: which jobs the reaper fails, and what it counts.
-- A stale job, as the comment of FailStaleJobs describes it: running and silent for longer than the
-- grace period, or pending and never claimed.
use opensourcebackup.Prelude.{
  Bool, [], ap, arith, count_where, if◌then◌else◌, map, refl, ℕ, ◌+◌, ◌||◌, ◌∙◌, ◌∷◌, ◌≡◌,
}
use opensourcebackup.Catalog.Jobs.Rows.{
  is_silent, is_unclaimed, pending_reason, running_reason, set_failed,
}
use opensourcebackup.Catalog.Jobs.Statements.{Jobs, fail_stale_jobs}
use opensourcebackup.Catalog.Models.{BackupJob}
use opensourcebackup.Prelude.Table.{update_where}

abbrev pub is_stale : ℕ → ℕ → ℕ → ℕ → BackupJob → Bool
is_stale pg sg wg now j = is_silent pg sg now j || is_unclaimed wg now j

module _ (pg sg wg now db_now db_later : ℕ) where
  -- The row after both updates.
  abbrev pub reaped : BackupJob → BackupJob
  reaped j =
      if is_silent pg sg now j
      then set_failed running_reason db_now j
      else if is_unclaimed wg now j
      then set_failed pending_reason db_later j
      else j

  abbrev silent_done : Jobs → Jobs
  silent_done = update_where (is_silent pg sg now) (set_failed running_reason db_now)

  abbrev all_done : Jobs → Jobs
  all_done jobs =
      update_where (is_unclaimed wg now) (set_failed pending_reason db_later) (silent_done jobs)

  all_done-map : (jobs : Jobs) → all_done jobs ≡ map reaped jobs
  unfolding update_where is_silent is_unclaimed set_failed
  all_done-map [] = refl
  all_done-map (j ∷ jobs) = ground (arith, all_done-map jobs)

  count-stale :
      (jobs : Jobs)
      → count_where (is_silent pg sg now) jobs
          + count_where (is_unclaimed wg now) (silent_done jobs)
        ≡ count_where (is_stale pg sg wg now) jobs
  unfolding update_where is_silent is_unclaimed set_failed
  count-stale [] = refl
  count-stale (j ∷ jobs) = ground (arith, count-stale jobs)

  none-stale : (jobs : Jobs) → count_where (is_stale pg sg wg now) (map reaped jobs) ≡ 0
  unfolding is_silent is_unclaimed set_failed
  none-stale [] = refl
  none-stale (j ∷ jobs) = ground (arith, none-stale jobs)

  -- The reaper fails every stale job, with the reason of its kind and the time of its statement,
  -- leaves every other row as it was, returns the number of the stale jobs, and leaves none that is
  -- stale at the same time.
  pub fail_stale_jobs_lem :
      (jobs : Jobs)
      → let (failed_count, after) = fail_stale_jobs pg sg wg now db_now db_later jobs in
        (after ≡ map reaped jobs)
        × (failed_count ≡ count_where (is_stale pg sg wg now) jobs)
        × (count_where (is_stale pg sg wg now) after ≡ 0)
  unfolding fail_stale_jobs
  fail_stale_jobs_lem jobs = (
    all_done-map jobs,
    count-stale jobs,
    ap (count_where (is_stale pg sg wg now)) (all_done-map jobs) ∙ none-stale jobs,
  )
