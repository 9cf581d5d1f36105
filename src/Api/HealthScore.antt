-- ===== src/Api/HealthScore.antt =====
-- internal/api/health_score.go: the input of the score, counted from the tables. The lists that the
-- loops read are in the order of the stores, on which no count or maximum depends.
pub mod Freshness
use opensourcebackup.Prelude.{
  Bool, List, Option, [], any_where, count_where, false, if◌then◌else◌, leb, length, ltb, none, not,
  some, true, ℕ, ◌&&◌, ◌*◌, ◌+◌, ◌==◌, ◌∷◌,
}
use opensourcebackup.Api.Server.{Server}
use opensourcebackup.Catalog.Models.{
  BackupJob, JobStatus, RestoreTest, Snapshot, has_rules, hour, is_backup, is_failed, is_success,
  minute,
}
use opensourcebackup.Catalog.Repositories.{is_verified}
use opensourcebackup.Catalog.Systems.{System}
use opensourcebackup.Health.Score.{Input, ScoreResult, calculate}

pub data AgentStatus : Type 0 where
  agent_online agent_idle agent_offline : AgentStatus

-- health.OnlineThreshold and health.IdleThreshold.
abbrev pub health_online_threshold : ℕ
health_online_threshold = 2 * minute

abbrev pub health_idle_threshold : ℕ
health_idle_threshold = 15 * minute

-- `age <= threshold`, with the signed age written as an order of instants.
unfoldable pub agent_status_from_last_seen : Option ℕ → ℕ → AgentStatus
agent_status_from_last_seen none now = agent_offline
agent_status_from_last_seen (some t) now =
    if leb now (t + health_online_threshold)
    then agent_online
    else if leb now (t + health_idle_threshold)
    then agent_idle
    else agent_offline

abbrev is_online : AgentStatus → Bool
is_online agent_online = true
is_online _ = false

abbrev is_idle : AgentStatus → Bool
is_idle agent_idle = true
is_idle _ = false

abbrev is_offline : AgentStatus → Bool
is_offline agent_offline = true
is_offline _ = false

abbrev agents_that : (AgentStatus → Bool) → ℕ → List System → ℕ
agents_that p now systems =
    count_where (λ sys. p (agent_status_from_last_seen sys.last_seen now)) systems

-- `best == nil || t.After(*best)`.
abbrev pub latest : Option ℕ → Option ℕ → Option ℕ
latest none best = best
latest (some t) none = some t
latest (some t) (some b) = if ltb b t then some t else some b

unfoldable pub latest_success : List BackupJob → Option ℕ → Option ℕ
latest_success [] best = best
latest_success (j ∷ jobs) best =
    latest_success jobs
      (latest (if is_backup j.type && is_success j.status then j.finished_at else none) best)

unfoldable pub latest_restore_test : List RestoreTest → Option ℕ → Option ℕ
latest_restore_test [] best = best
latest_restore_test (rt ∷ tests') best =
    latest_restore_test tests' (latest (if is_success rt.status then rt.finished_at else none) best)

unfoldable pub count_verified_snapshots : List Snapshot → List RestoreTest → ℕ
count_verified_snapshots snapshots rts =
    count_where (λ sn. any_where (λ rt. is_success rt.status && rt.snapshot_id == sn.id) rts)
      snapshots

abbrev counted_as : (JobStatus → Bool) → BackupJob → Bool
counted_as p j = is_backup j.type && p j.status

-- `j.CreatedAt.After(now - 24h)`.
abbrev failed_lately : ℕ → BackupJob → Bool
failed_lately now j = counted_as is_failed j && ltb now (j.created_at + 24 * hour)

unfoldable pub score_input : ℕ → Server → Input
score_input now s =
    let jobs = s.catalog.jobs in
    record {
      total_systems = length s.catalog.systems;
      online_agents = agents_that is_online now s.catalog.systems;
      idle_agents = agents_that is_idle now s.catalog.systems;
      offline_agents = agents_that is_offline now s.catalog.systems;
      total_jobs =
          count_where (counted_as is_success) jobs + count_where (counted_as is_failed) jobs;
      success_jobs = count_where (counted_as is_success) jobs;
      failed_jobs = count_where (counted_as is_failed) jobs;
      failed_last_24h = count_where (failed_lately now) jobs;
      last_success_at = latest_success jobs none;
      total_snapshots = length s.snapshots;
      verified_snapshots = count_verified_snapshots s.snapshots s.restore_tests;
      last_restore_test_at = latest_restore_test s.restore_tests none;
      total_repos = length s.repositories;
      unprotected_repos =
          count_where (λ r. not (is_verified r.security_posture.immutability)) s.repositories;
      unencrypted_repos =
          count_where (λ r. not (is_verified r.security_posture.encryption)) s.repositories;
      policies_with_retention = count_where (λ p. has_rules p.retention_plan) s.catalog.policies;
      now = now;
    }

-- time.Now is read once; Calculate reads it again only if the input has none.
unfoldable pub compute_score : ℕ → Server → ScoreResult
compute_score now s = calculate now (score_input now s)
