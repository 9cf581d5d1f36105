-- ===== src/Scenarios/Health.antt =====
-- The theorems on the health score, at one input.
use opensourcebackup.Prelude.Int.{negsuc, pos}
use opensourcebackup.Prelude.{[], arith, count_where, refl, some, ◌+◌, ◌-◌, ◌↔◌, ◌≡◌, ◌≤◌}
use opensourcebackup.Health.Alerts.{alerts_from_score, summarize}
use opensourcebackup.Health.Digits.{IsDecimal, Text, itoa, itoa-value, value}
use opensourcebackup.Health.Ordering.{
  IsOrdered, alerts_from_score-IsOrdered, is_critical, is_info, is_warning, summarize_lem,
}
use opensourcebackup.Health.Penalties.{at_time, calculate-label, calculate-penalties}
use opensourcebackup.Health.Rules.{penalties, priced, total}
use opensourcebackup.Health.Score.{Input, calculate}

-- Half of the snapshots are verified, one of two agents is offline, a job failed today.
abbrev tired : Input
tired = record {
  total_systems = 2;
  online_agents = 1;
  idle_agents = 0;
  offline_agents = 1;
  total_jobs = 12;
  success_jobs = 9;
  failed_jobs = 3;
  failed_last_24h = 1;
  last_success_at = some 1_000;
  total_snapshots = 4;
  verified_snapshots = 2;
  last_restore_test_at = some 1_000;
  total_repos = 1;
  unprotected_repos = 0;
  unencrypted_repos = 0;
  policies_with_retention = 1;
  now = 2_000;
}

calculate-penalties_example :
    let r = calculate 5 tired in
    (priced r.deductions ≡ penalties (at_time 5 tired))
    × (r.score ≡ pos (100 - total (penalties (at_time 5 tired))))
calculate-penalties_example = calculate-penalties 5 tired

-- 15 for the coverage, 20 and 10 for the failures, 10 for the agents.
tired-total : total (penalties (at_time 5 tired)) ≡ 55
tired-total = refl

calculate-label_example :
    let r = calculate 5 tired in
    ((r.score ≡ pos 100) ↔ (r.deductions ≡ []))
    × ((r.label ≡ "Excellent") ↔ (total (penalties (at_time 5 tired)) ≤ 10))
    × ((r.label ≡ "At Risk") ↔ (46 ≤ total (penalties (at_time 5 tired))))
calculate-label_example = calculate-label 5 tired

alerts_from_score-IsOrdered_example : IsOrdered (alerts_from_score (calculate 5 tired))
alerts_from_score-IsOrdered_example = alerts_from_score-IsOrdered 5 tired

summarize_lem_example :
    let s = summarize (alerts_from_score (calculate 5 tired)) in
    (s.critical ≡ count_where is_critical (alerts_from_score (calculate 5 tired)))
    × (s.warning ≡ count_where is_warning (alerts_from_score (calculate 5 tired)))
    × (s.info ≡ count_where is_info (alerts_from_score (calculate 5 tired)))
    × (s.critical + s.warning + s.info ≡ s.total)
summarize_lem_example = summarize_lem (alerts_from_score (calculate 5 tired))

itoa-value_example :
    ((out : Text) × (itoa (pos 1_203) ≡ some out) × (value out ≡ 1_203) × IsDecimal out)
    × (itoa (negsuc 6) ≡ some [])
itoa-value_example = itoa-value 1_203 6 (omega arith)
