-- ===== src/Scenarios/Recovery.antt =====
-- The theorems on retention and on restore tests, for system 10, of whose two snapshots one is
-- restore-tested.
use opensourcebackup.Prelude.{
  All, Bool, List, String, [], ap, arith, refl, some, true, ℕ, ◌++◌, ◌==◌, ◌∙◌, ◌∷◌, ◌≡◌, ◌≤◌,
}
use opensourcebackup.Api.Server.{Server}
use opensourcebackup.Prelude.Table.{find, find-append}
use opensourcebackup.Api.HealthScore.{compute_score, count_verified_snapshots}
use opensourcebackup.Api.HealthScore.Freshness.{
  IsUnfinished, call_complete_test, compute_score-stale, serve_test, serve_test-IsUnfinished,
  stale_deductions,
}
use opensourcebackup.Api.Http.{Request, decoded, reply}
use opensourcebackup.Api.Retention.{
  Verdict, handle_complete_retention_job, is_verified_by, judge, latest_verified, listed,
  protected_id, surviving_verified, verdict,
}
use opensourcebackup.Api.Retention.Overwriting.{completed, handle_complete_retention_job-completed}
use opensourcebackup.Api.Retention.Removal.{complete-survivor, has_test}
use opensourcebackup.Api.Retention.Safety.{judge-all_approved}
use opensourcebackup.Catalog.Models.{Snapshot, job_id}
use opensourcebackup.Catalog.Snapshots.{Snapshots, snapshot_key}
use opensourcebackup.Scenarios.Data.{a_server, a_snapshot, some_jobs-Unique, stranger, surroundings}
use opensourcebackup.Catalog.RestoreTests
use opensourcebackup.Catalog.Snapshots

-- restic would remove both.
abbrev candidates : List String
candidates = "aa11" ∷ "bb22" ∷ []

abbrev is_tested : ℕ → Bool
is_tested id = id == 40

abbrev both : Snapshots
both = a_snapshot 40 "aa11" ∷ a_snapshot 41 "bb22" ∷ []

-- The verdict protects the tested one.
both-verdict : verdict 10 candidates a_server ≡ record {
  approved_ids = "bb22" ∷ [];
  protected_ids = "aa11" ∷ [];
  reason = "safety rule: last restore-tested snapshot protected from deletion";
}
unfolding judge protected_id surviving_verified latest_verified is_verified_by find
    RestoreTests.list_by_system_id Snapshots.list_by_system
both-verdict = refl

abbrev removal : Request (List String)
removal = record { system = some 10; path_id = some 2; body = decoded ("bb22" ∷ []) }

abbrev approved_of : Verdict → List String
approved_of v = v.approved_ids

-- Another snapshot was registered between the validation and the completion.
abbrev afterwards : Server
afterwards = record a_server { snapshots = a_server.snapshots ++ a_snapshot 43 "dd44" ∷ [] }

complete-survivor_example :
    (sn : Snapshot) × (has_test 10 a_server sn.id ≡ true)
    × (find snapshot_key sn.id
          (handle_complete_retention_job surroundings removal afterwards).1.snapshots
        ≡ some sn)
unfolding find is_verified_by RestoreTests.list_by_system_id Snapshots.list_by_system
complete-survivor_example =
    complete-survivor surroundings removal a_server afterwards 10 candidates ("bb22" ∷ [])
      (refl, (refl, tt)) (refl, (refl, (refl, tt)))
      (
        record { named = refl; timed = omega arith },
        (record { named = refl; timed = omega arith }, tt),
      )
      (omega arith)
      (λ sn h _. find-append snapshot_key sn.id a_server.snapshots (a_snapshot 43 "dd44" ∷ []) h)
      refl (λ e h. ap (λ v. listed e (approved_of v)) both-verdict ∙ h)

judge-all_approved_example :
    ((judge is_tested ("bb22" ∷ []) both).approved_ids ≡ "bb22" ∷ [])
    × ((judge is_tested ("bb22" ∷ []) both).protected_ids ≡ [])
unfolding surviving_verified
judge-all_approved_example = judge-all_approved is_tested ("bb22" ∷ []) both (omega arith)

serve_test-IsUnfinished_example :
    All IsUnfinished
      (serve_test surroundings
        (call_complete_test (some 50) (decoded (record { verified_files = 4; verified_bytes = 9 })))
        (some 10)
        a_server).1.restore_tests
serve_test-IsUnfinished_example =
    serve_test-IsUnfinished surroundings
      (call_complete_test (some 50) (decoded (record { verified_files = 4; verified_bytes = 9 })))
      (some 10) a_server (refl, tt)

compute_score-stale_example : 1 ≤ stale_deductions (compute_score 2_000 a_server)
unfolding count_verified_snapshots
compute_score-stale_example = compute_score-stale 2_000 a_server (refl, tt) (omega arith)

handle_complete_retention_job-completed_example :
    let (answer, after) =
      handle_complete_retention_job surroundings
        (record { system = some 10; path_id = some 4; body = decoded [] })
        a_server in
    (answer ≡ reply 200 "ok") × (find job_id 4 after.catalog.jobs ≡ some (completed 2_000 stranger))
unfolding find
handle_complete_retention_job-completed_example =
    handle_complete_retention_job-completed surroundings 4 [] a_server stranger 10 some_jobs-Unique
      refl
