-- ===== src/Health/Rules.antt =====
-- internal/health/score.go: the rules of formula 2.0 as a table.
use opensourcebackup.Prelude.{
  Bool, List, [], if◌then◌else◌, is_none, is_some, ltb, map, ℕ, ◌&&◌, ◌*◌, ◌++◌, ◌+◌, ◌==◌, ◌∷◌,
}
use opensourcebackup.Health.Score.{
  Code, Deduction, Input, agents_idle, agents_offline, backup_max_age_24h, backup_stale_24h,
  failed_jobs_24h, high_failure_rate, no_restore_tests, no_retention_policy, no_successful_backup,
  older_than, partial_restore_coverage, repos_not_encrypted, repos_not_immutable,
  restore_test_max_age, restore_test_stale,
}

abbrev pub Penalty : Type 0
Penalty = ℕ × Code

abbrev pub only : Bool → Penalty → List Penalty
only b p = if b then p ∷ [] else []

-- The rules of formula 2.0 for the restore tests, one line for each code.
abbrev pub restore_rules : Input → List Penalty
restore_rules i =
    only (ltb 0 i.total_snapshots && i.verified_snapshots == 0) (30, no_restore_tests)
    ++ only
        (ltb 0 i.total_snapshots
          && (ltb 0 i.verified_snapshots && ltb i.verified_snapshots i.total_snapshots))
        (15, partial_restore_coverage)

abbrev pub freshness_rules : Input → List Penalty
freshness_rules i =
    only
      (ltb 0 i.total_snapshots
        && (ltb 0 i.verified_snapshots
            && older_than restore_test_max_age i.now i.last_restore_test_at))
      (10, restore_test_stale)

abbrev pub backup_rules : Input → List Penalty
backup_rules i =
    only (ltb 0 i.total_systems && is_none i.last_success_at) (20, no_successful_backup)
    ++ only
        (ltb 0 i.total_systems
          && (is_some i.last_success_at && older_than backup_max_age_24h i.now i.last_success_at))
        (15, backup_stale_24h)

abbrev pub failure_rules : Input → List Penalty
failure_rules i = only (ltb 0 i.failed_last_24h) (20, failed_jobs_24h)

abbrev pub rate_rules : Input → List Penalty
rate_rules i =
    only (ltb 0 i.total_jobs && ltb (20 * i.total_jobs) (100 * i.failed_jobs))
      (10, high_failure_rate)

abbrev pub agent_rules : Input → List Penalty
agent_rules i =
    only (ltb 0 i.total_systems && ltb 0 i.offline_agents) (10, agents_offline)
    ++ only (ltb 0 i.total_systems && (i.offline_agents == 0 && ltb 0 i.idle_agents))
        (5, agents_idle)

abbrev pub protection_rules : Input → List Penalty
protection_rules i =
    only (ltb 0 i.total_repos && ltb 0 i.unprotected_repos) (10, repos_not_immutable)

abbrev pub encryption_rules : Input → List Penalty
encryption_rules i =
    only (ltb 0 i.total_repos && ltb 0 i.unencrypted_repos) (5, repos_not_encrypted)

abbrev pub retention_rule : Input → List Penalty
retention_rule i =
    only (ltb 0 i.total_systems && i.policies_with_retention == 0) (5, no_retention_policy)

-- All of them, in the order of the source.
abbrev pub penalties : Input → List Penalty
penalties i =
    (((((((restore_rules i ++ freshness_rules i) ++ backup_rules i) ++ failure_rules i)
            ++ rate_rules i)
          ++ agent_rules i)
        ++ protection_rules i)
      ++ encryption_rules i)
    ++ retention_rule i

abbrev pub total : List Penalty → ℕ
total [] = 0
total ((p, _) ∷ ps) = p + total ps

abbrev pub priced : List Deduction → List Penalty
priced ds = map (λ d. (d.points, d.code)) ds
