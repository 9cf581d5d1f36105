-- ===== src/Health/Score.antt =====
-- internal/health/score.go: the score calculator. The counts are numbers of rows, so they are
-- natural numbers, as the handler of internal/api/health_score.go passes them. `score` is an `int`
-- that may fall below zero before the clamp. `float64(a)/float64(b)*100 > 20` is written as
-- 20 * b < 100 * a, with which it agrees for counts below 2^50.
use opensourcebackup.Prelude.{
  Bool, List, Option, String, [], if◌then◌else◌, is_none, ltb, none, some, true, ℕ, ◌&&◌, ◌*◌, ◌++◌,
  ◌+◌, ◌==◌, ◌∷◌,
}
use opensourcebackup.Catalog.Models.{hour}
use opensourcebackup.Health.Digits.{Text, format_count, text}
use opensourcebackup.Prelude.Int.{leb_ℤ, ltb_ℤ, pos, ℤ, ◌-ℤ◌}

abbrev pub restore_test_max_age : ℕ
restore_test_max_age = 30 * (24 * hour)

abbrev pub backup_max_age_24h : ℕ
backup_max_age_24h = 24 * hour

-- The codes of the deductions. Alerts know these, and a deduction may carry another.
pub data Code : Type 0 where
  no_restore_tests partial_restore_coverage restore_test_stale : Code
  no_successful_backup backup_stale_24h failed_jobs_24h high_failure_rate : Code
  agents_offline agents_idle repos_not_immutable repos_not_encrypted no_retention_policy : Code
  other_code : String → Code

pub record Deduction : Type 0 where
  pub points : ℕ
  pub code : Code
  pub reason : Text

pub record ScoreResult : Type 0 where
  pub score : ℤ
  pub label : String
  pub color : String
  pub version : String
  pub deductions : List Deduction
  pub factors : List Text

pub record Input : Type 0 where
  pub total_systems : ℕ
  pub online_agents : ℕ
  pub idle_agents : ℕ
  pub offline_agents : ℕ
  pub total_jobs : ℕ
  pub success_jobs : ℕ
  pub failed_jobs : ℕ
  pub failed_last_24h : ℕ
  pub last_success_at : Option ℕ
  pub total_snapshots : ℕ
  pub verified_snapshots : ℕ
  pub last_restore_test_at : Option ℕ
  pub total_repos : ℕ
  pub unprotected_repos : ℕ
  pub unencrypted_repos : ℕ
  pub policies_with_retention : ℕ
  pub now : ℕ

-- The variables that the closures `add` and `good` write.
pub record Tally : Type 0 where
  pub score : ℤ
  pub deductions : List Deduction
  pub factors : List Text

unfoldable pub add : ℕ → Code → Text → Tally → Tally
add pts code reason t = record t {
  score = t.score -ℤ pos pts;
  deductions = t.deductions ++ record { points = pts; code = code; reason = reason } ∷ [];
}

unfoldable pub good : Text → Tally → Tally
good f t = record t { factors = t.factors ++ f ∷ [] }

-- `t == nil || now.Sub(*t) > age`
abbrev pub older_than : ℕ → ℕ → Option ℕ → Bool
older_than age now none = true
older_than age now (some t) = ltb (t + age) now

unfoldable pub restore_coverage : Input → Tally → Tally
restore_coverage i t =
    if ltb 0 i.total_snapshots
    then if i.verified_snapshots == 0
      then add 30 no_restore_tests
          (text "No snapshots have been restore-tested — recoverability is unproven") t
      else if ltb i.verified_snapshots i.total_snapshots
      then add 15 partial_restore_coverage (text "Some snapshots have not been restore-tested") t
      else good (text "All snapshots restore-tested") t
    else t

unfoldable pub restore_freshness : Input → Tally → Tally
restore_freshness i t =
    if ltb 0 i.total_snapshots && ltb 0 i.verified_snapshots
    then if older_than restore_test_max_age i.now i.last_restore_test_at
      then add 10 restore_test_stale (text "Most recent restore test is older than 30 days") t
      else good (text "Recent restore test within 30 days") t
    else t

unfoldable pub backup_freshness : Input → Tally → Tally
backup_freshness i t =
    if ltb 0 i.total_systems
    then if is_none i.last_success_at
      then add 20 no_successful_backup (text "No successful backup has been recorded yet") t
      else if older_than backup_max_age_24h i.now i.last_success_at
      then add 15 backup_stale_24h (text "No successful backup in the last 24 hours") t
      else good (text "Successful backup within last 24 hours") t
    else t

unfoldable pub recent_failures : Input → Tally → Tally
recent_failures i t =
    if ltb 0 i.failed_last_24h
    then add 20 failed_jobs_24h
        (if ltb 1 i.failed_last_24h
          then format_count i.failed_last_24h "backup job" ++ text " failed in the last 24 hours"
          else text "1 backup job failed in the last 24 hours")
        t
    else if ltb 0 i.total_jobs
    then good (text "No failed jobs in last 24 hours") t
    else t

unfoldable pub failure_rate : Input → Tally → Tally
failure_rate i t =
    if ltb 0 i.total_jobs && ltb (20 * i.total_jobs) (100 * i.failed_jobs)
    then add 10 high_failure_rate (text "Overall backup failure rate is above 20%") t
    else t

unfoldable pub connectivity : Input → Tally → Tally
connectivity i t =
    if ltb 0 i.total_systems
    then if ltb 0 i.offline_agents
      then add 10 agents_offline
          (format_count i.offline_agents "agent" ++ text " offline (no heartbeat in 15+ minutes)") t
      else if ltb 0 i.idle_agents
      then add 5 agents_idle
          (format_count i.idle_agents "agent" ++ text " idle (no heartbeat in 2–15 minutes)") t
      else good (text "All agents online") t
    else t

unfoldable pub protection : Input → Tally → Tally
protection i t =
    if ltb 0 i.total_repos
    then if ltb 0 i.unprotected_repos
      then add 10 repos_not_immutable
          (format_count i.unprotected_repos "repository"
            ++ text " without verified write protection")
          t
      else good (text "All repositories have write protection configured") t
    else t

unfoldable pub encryption : Input → Tally → Tally
encryption i t =
    if ltb 0 i.total_repos
    then if ltb 0 i.unencrypted_repos
      then add 5 repos_not_encrypted
          (format_count i.unencrypted_repos "repository" ++ text " without verified encryption") t
      else good (text "All repositories have encryption configured") t
    else t

unfoldable pub retention_rules : Input → Tally → Tally
retention_rules i t =
    if ltb 0 i.total_systems && i.policies_with_retention == 0
    then add 5 no_retention_policy
        (text
          "No backup policies have retention rules configured — snapshots will grow indefinitely")
        t
    else if ltb 0 i.policies_with_retention
    then good (text "Retention rules configured") t
    else t

unfoldable pub classify : ℤ → String × String
classify score =
    if leb_ℤ (pos 90) score
    then ("Excellent", "#22c55e")
    else if leb_ℤ (pos 75) score
    then ("Good", "#4ade80")
    else if leb_ℤ (pos 55) score
    then ("Fair", "#f59e0b")
    else ("At Risk", "#ef4444")

abbrev pub clamp : ℤ → ℤ
clamp score = if ltb_ℤ score (pos 0) then pos 0 else score

abbrev pub start_tally : Tally
start_tally = record { score = pos 100; deductions = []; factors = [] }

-- The sections of Calculate, in order.
unfoldable pub tally : Input → Tally
tally i = retention_rules i (
    encryption i (
      protection i (
        connectivity i (
          failure_rate i (
            recent_failures i
              (backup_freshness i (restore_freshness i (restore_coverage i start_tally))))))))

-- `wall` is the clock that is read where the input carries no time.
unfoldable pub calculate : ℕ → Input → ScoreResult
calculate wall input =
    let i : Input = if input.now == 0 then record input { now = wall } else input in
    let t = tally i in
    let score = clamp t.score in
    let (label, color) = classify score in
    record {
      score = score;
      label = label;
      color = color;
      version = "2.0";
      deductions = t.deductions;
      factors = t.factors;
    }
