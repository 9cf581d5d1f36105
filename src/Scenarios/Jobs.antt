-- ===== src/Scenarios/Jobs.antt =====
-- The theorems on jobs, at the jobs of the small catalog.
use opensourcebackup.Prelude.{List, [], count_where, map, refl, some, true, ℕ, ◌∷◌, ◌≡◌, ◌≢◌, ◌⊎◌}
use opensourcebackup.Catalog.Models.{
  BackupJob, err, illegal_transition, job_id, ok, running, success,
}
use opensourcebackup.Catalog.Jobs.Transitions.{
  complete, edge, fail, set_clause, start, transit, transit-allowed, transit-refused,
}
use opensourcebackup.Catalog.Jobs.Lifecycle.{
  Op, SameOutcome, progress, reap, run, run-terminal, step, step-edge, transition,
}
use opensourcebackup.Catalog.Jobs.Reaper.{fail_stale_jobs_lem, is_stale, reaped}
use opensourcebackup.Catalog.Jobs.Rows.{
  is_silent, is_unclaimed, set_failed, set_progress, set_running, set_success,
}
use opensourcebackup.Catalog.Jobs.Statements.{
  apply_transition, complete_job, fail_job, fail_stale_jobs, no_progress, start_job, status_check,
  update_or_missing, update_progress,
}
use opensourcebackup.Prelude.Table.{find, update_where}
use opensourcebackup.Scenarios.Data.{busy, finished, some_jobs, some_jobs-Unique, waiting}

-- A start, progress, a completion, and a late failure report of job 1.
abbrev night : List Op
night =
    transition start 1 100
    ∷ progress 1 no_progress 110
    ∷ transition (complete 500) 1 120
    ∷ transition (fail "late") 1 130
    ∷ reap 1 1 1 140 141 142
    ∷ []

transit-refused_example :
    transit (complete 500) 3 100 some_jobs ≡ (err (illegal_transition success), some_jobs)
unfolding find
transit-refused_example =
    transit-refused (complete 500) 3 100 some_jobs finished some_jobs-Unique refl refl

transit-allowed_example :
    let (answer, after) = transit (complete 500) 2 100 some_jobs in
    (answer ≡ ok tt)
    × (find job_id 2 after ≡ some (set_clause (complete 500) 100 busy))
    × ((set_clause (complete 500) 100 busy).status ≡ success)
    × ((k : ℕ) → k ≢ 2 → find job_id k after ≡ find job_id k some_jobs)
unfolding find
transit-allowed_example =
    transit-allowed (complete 500) 2 100 some_jobs busy some_jobs-Unique refl refl

step-edge_example :
    (j' : BackupJob) × (find job_id 2 (step (transition (complete 500) 2 100) some_jobs) ≡ some j')
    × ((j'.status ≡ running) ⊎ (edge running j'.status ≡ true))
unfolding find
step-edge_example = step-edge (transition (complete 500) 2 100) some_jobs 2 busy refl

run-terminal_example :
    (j' : BackupJob) × (find job_id 3 (run night some_jobs) ≡ some j') × SameOutcome finished j'
unfolding find
run-terminal_example = run-terminal night some_jobs 3 finished refl refl

fail_stale_jobs_lem_example :
    let (failed_count, after) = fail_stale_jobs 10 20 30 100 101 102 some_jobs in
    (after ≡ map (reaped 10 20 30 100 101 102) some_jobs)
    × (failed_count ≡ count_where (is_stale 10 20 30 100) some_jobs)
    × (count_where (is_stale 10 20 30 100) after ≡ 0)
fail_stale_jobs_lem_example = fail_stale_jobs_lem 10 20 30 100 101 102 some_jobs

-- The reaper finds all but the finished job.
stale_now : count_where (is_stale 10 20 30 100) some_jobs ≡ 3
unfolding is_silent is_unclaimed
stale_now = refl

-- The night ends with a success, whatever the late report says.
night_end :
    find job_id 1 (run night some_jobs)
    ≡ some (record (set_clause (complete 500) 120 (set_clause start 100 waiting)) {
      last_progress_at = some 110;
    })
unfolding find run step transit start_job complete_job fail_job apply_transition update_where
    update_progress update_or_missing set_progress set_running set_success set_failed
    fail_stale_jobs is_silent is_unclaimed status_check
night_end = refl
