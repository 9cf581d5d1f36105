-- ===== src/Health/Alerts.antt =====
-- internal/health/alerts.go: alerts from deductions, in the order of their severity.
use opensourcebackup.Prelude.{List, Option, String, [], length, none, some, ℕ, ◌++◌, ◌+◌, ◌∷◌}
use opensourcebackup.Health.Digits.{Text}
use opensourcebackup.Health.Score.{
  Code, Deduction, ScoreResult, agents_idle, agents_offline, backup_stale_24h, failed_jobs_24h,
  high_failure_rate, no_restore_tests, no_retention_policy, no_successful_backup, other_code,
  partial_restore_coverage, repos_not_encrypted, repos_not_immutable, restore_test_stale,
}

pub data Severity : Type 0 where
  critical warning info : Severity

pub record Alert : Type 0 where
  pub code : Code
  pub severity : Severity
  pub category : String
  pub title : String
  pub description : Text
  pub points : ℕ
  pub action : String

pub record Meta : Type 0 where
  pub severity : Severity
  pub category : String
  pub title : String
  pub action : String

abbrev meta : Severity → String → String → String → Option Meta
meta severity category title action =
    some (record { severity = severity; category = category; title = title; action = action })

unfoldable pub alert_meta : Code → Option Meta
alert_meta no_restore_tests =
    meta critical "restore" "No restore tests configured"
      "Go to Restore Tests → schedule a restore test for your most important snapshots"
alert_meta partial_restore_coverage =
    meta warning "restore" "Some snapshots are not restore-tested"
      "Go to Restore Tests → run restore tests for untested snapshots"
alert_meta restore_test_stale =
    meta warning "restore" "Restore test older than 30 days"
      "Schedule a new restore test to confirm recoverability"
alert_meta no_successful_backup =
    meta critical "backup" "No successful backup recorded"
      "Check agent connectivity and run a manual backup job"
alert_meta backup_stale_24h =
    meta warning "backup" "No backup in the last 24 hours"
      "Check if the scheduled backup policy ran and agent is online"
alert_meta failed_jobs_24h =
    meta warning "backup" "Backup jobs failed in last 24 hours"
      "Go to Jobs → check failed job error messages"
alert_meta high_failure_rate =
    meta warning "backup" "High backup failure rate (>20%)"
      "Review job history and check storage connectivity"
alert_meta agents_offline =
    meta critical "agent" "One or more agents are offline"
      "Check agent service status: opensourcebackup-agent status"
alert_meta agents_idle =
    meta info "agent" "One or more agents are idle"
      "Agent has not sent a heartbeat for 2–15 minutes — may be recovering"
alert_meta repos_not_immutable =
    meta warning "repository" "Repositories without write protection"
      "Go to Repositories → set immutable_mode to object_lock, worm, or append_only"
alert_meta repos_not_encrypted =
    meta warning "repository" "Repositories without encryption"
      "Go to Repositories → configure an encryption mode (e.g. aes256)"
alert_meta no_retention_policy =
    meta info "retention" "No retention rules configured"
      "Go to Policies → set keep_last or keep_daily to prevent unbounded growth"
alert_meta (other_code _) = none

-- The text of a code, for the title of an alert with an unknown one.
abbrev code_name : Code → String
code_name (other_code s) = s
code_name _ = ""

unfoldable pub alert_of : Deduction → Alert
unfolding alert_meta
alert_of d = elim (alert_meta d.code) [
  | none ↦ record {
    code = d.code;
    severity = info;
    category = "system";
    title = code_name d.code;
    description = d.reason;
    points = d.points;
    action = "";
  }
  | some m ↦ record {
    code = d.code;
    severity = m.severity;
    category = m.category;
    title = m.title;
    description = d.reason;
    points = d.points;
    action = m.action;
  }
]

-- The list that an alert is appended to: by its severity, and to the warnings if its code is
-- unknown.
abbrev pub shelf : Deduction → Severity
shelf d = elim (alert_meta d.code) [ none ↦ warning | some m ↦ m.severity ]

-- The loop over the deductions, with its three lists.
unfoldable pub collect : List Alert → List Alert → List Alert → List Deduction → List Alert
collect cs ws is [] = cs ++ (ws ++ is)
collect cs ws is (d ∷ ds) = elim (shelf d) [
  | critical ↦ collect (cs ++ alert_of d ∷ []) ws is ds
  | warning ↦ collect cs (ws ++ alert_of d ∷ []) is ds
  | info ↦ collect cs ws (is ++ alert_of d ∷ []) ds
]

unfoldable pub alerts_from_score : ScoreResult → List Alert
unfolding collect
alerts_from_score r = collect [] [] [] r.deductions

pub record AlertSummary : Type 0 where
  pub total : ℕ
  pub critical : ℕ
  pub warning : ℕ
  pub info : ℕ

unfoldable pub count_alert : AlertSummary → Alert → AlertSummary
count_alert s a = elim a.severity [
  | critical ↦ record s { critical = s.critical + 1 }
  | warning ↦ record s { warning = s.warning + 1 }
  | info ↦ record s { info = s.info + 1 }
]

unfoldable pub summarize_from : AlertSummary → List Alert → AlertSummary
summarize_from s [] = s
summarize_from s (a ∷ as_) = summarize_from (count_alert s a) as_

unfoldable pub summarize : List Alert → AlertSummary
unfolding summarize_from count_alert
summarize alerts =
    summarize_from (record { total = length alerts; critical = 0; warning = 0; info = 0 }) alerts
