-- ===== src/Catalog/Policies/Storage.antt =====
-- internal/catalog/policies.go: what of a policy is read back after it was created or updated.
use opensourcebackup.Prelude.{
  ==_refl, Bool-cases, Option, String, ap, arith, false, inl, inr, none, refl, some, str_eq, sym, ℕ,
  ◌==◌, ◌∙◌, ◌≡◌,
}
use opensourcebackup.Catalog.Models.{BackupPolicy, ok}
use opensourcebackup.Catalog.Policies.{
  Policies, PolicyRow, create_policy, found_policy, get_policy_by_id, inserted_row, or_text,
  row_key, scan_policy, schedule_text, set_policy, update_policy,
}
use opensourcebackup.Prelude.Table.{
  count_where-found, find, find-append_fresh, find-key, find-update_where,
}
use opensourcebackup.Scheduler.Entries.{backup_cron}

-- What is read back of p: a missing time zone and rule for missed runs have their defaults, the cron is
-- the older schedule, and the check and the bandwidth limit are gone.
pub record ReadsBack (p q : BackupPolicy) : Type 0 where
  pub name : q.name ≡ p.name
  pub includes : q.includes ≡ p.includes
  pub excludes : q.excludes ≡ p.excludes
  pub schedule : q.schedule ≡ p.schedule
  pub cron : q.schedule_config.cron ≡ schedule_text p.schedule
  pub scheduled : backup_cron q ≡ schedule_text p.schedule
  pub timezone : q.schedule_config.timezone ≡ or_text p.schedule_config.timezone "UTC"
  pub window_start : q.schedule_config.window_start ≡ p.schedule_config.window_start
  pub window_end : q.schedule_config.window_end ≡ p.schedule_config.window_end
  pub if_missed : q.schedule_config.if_missed ≡ or_text p.schedule_config.if_missed "run_asap"
  pub restore_test_cron : q.schedule_config.restore_test_cron ≡ p.schedule_config.restore_test_cron
  pub retention_cron : q.schedule_config.retention_cron ≡ p.schedule_config.retention_cron
  pub verify_cron : q.schedule_config.verify_cron ≡ ""
  pub verify_full : q.schedule_config.verify_full ≡ false
  pub bandwidth_limit_kbps : q.bandwidth_limit_kbps ≡ 0
  pub retention_plan : q.retention_plan ≡ p.retention_plan
  pub engine : q.engine ≡ p.engine
  pub pre_hooks : q.pre_hooks ≡ p.pre_hooks
  pub post_hooks : q.post_hooks ≡ p.post_hooks
  pub repository_id : q.repository_id ≡ p.repository_id

scan_policy-backup_cron :
    (row : PolicyRow) (o : Option String)
    → row.schedule ≡ o
    → backup_cron (scan_policy row) ≡ schedule_text row.schedule
unfolding scan_policy backup_cron
scan_policy-backup_cron row none e = rw e refl
scan_policy-backup_cron row (some s) e = elim (Bool-cases (str_eq s "")) [
  | inl blank ↦ rw (e, blank) refl
  | inr given ↦ rw (e, given) refl
]

-- A row whose written columns are those of the policy.
set_policy-ReadsBack :
    (p : BackupPolicy) (row : PolicyRow) → ReadsBack p (scan_policy (set_policy p row))
unfolding scan_policy set_policy
set_policy-ReadsBack p row = record {
  name = refl;
  includes = refl;
  excludes = refl;
  schedule = refl;
  cron = refl;
  scheduled = scan_policy-backup_cron (set_policy p row) p.schedule refl;
  timezone = refl;
  window_start = refl;
  window_end = refl;
  if_missed = refl;
  restore_test_cron = refl;
  retention_cron = refl;
  verify_cron = refl;
  verify_full = refl;
  bandwidth_limit_kbps = refl;
  retention_plan = refl;
  engine = refl;
  pre_hooks = refl;
  post_hooks = refl;
  repository_id = refl;
}

find-inserted :
    (new_id db_now : ℕ) (p : BackupPolicy) (policies : Policies)
    → find row_key new_id policies ≡ none
    → find row_key new_id (create_policy new_id db_now p policies).1
      ≡ some (inserted_row new_id db_now p)
unfolding create_policy find inserted_row
find-inserted new_id db_now p policies missing =
    find-append_fresh row_key new_id policies _ missing ∙ rw (==_refl new_id) refl

find-updated :
    (p : BackupPolicy) (policies : Policies) (row : PolicyRow)
    → find row_key p.id policies ≡ some row
    → ((update_policy p policies).0 ≡ ok tt)
      × (find row_key p.id (update_policy p policies).1 ≡ some (set_policy p row))
unfolding update_policy set_policy
find-updated p policies row there =
    let hit = count_where-found row_key p.id policies {x = row} there in
    let own : row.id ≡ p.id = find-key row_key p.id policies there in
    (
      ground (arith, hit),
      ground (
        arith,
        hit,
        own,
        there,
        find-update_where row_key (λ x. row_key x == p.id) (set_policy p) (λ _. refl) p.id policies,
      ),
    )

-- A policy that is created under a new key is read back, and so is any policy that the update of that
-- row then writes: with its name, paths, schedule, window, crons of tests and retention, rules, engine,
-- hooks and repository; with "UTC" and "run_asap" where the time zone and the rule for missed runs are
-- empty; with the older schedule, or nothing without one, as the cron that the scheduler reads; and
-- without the cron and depth of the check and the bandwidth limit. The update succeeds and keeps the
-- time of creation.
pub create_policy-get_policy_by_id :
    (new_id db_now : ℕ) (p p' : BackupPolicy) (policies : Policies)
    → find row_key new_id policies ≡ none
    → p'.id ≡ new_id
    → let created = (create_policy new_id db_now p policies).1 in
      ((q : BackupPolicy) × (get_policy_by_id new_id created ≡ ok q)
        × ReadsBack p q
        × (q.created_at ≡ db_now))
      × ((update_policy p' created).0 ≡ ok tt)
      × ((q : BackupPolicy) × (get_policy_by_id new_id (update_policy p' created).1 ≡ ok q)
          × ReadsBack p' q
          × (q.created_at ≡ db_now))
unfolding get_policy_by_id scan_policy inserted_row set_policy
create_policy-get_policy_by_id new_id db_now p p' policies missing same =
    let row = inserted_row new_id db_now p in
    let created = (create_policy new_id db_now p policies).1 in
    let hit = find-inserted new_id db_now p policies missing in
    let (said, there) = find-updated p' created row (ap (λ k. find row_key k created) same ∙ hit) in
    (
      (scan_policy row, ap found_policy hit, set_policy-ReadsBack p row, refl),
      said,
      (
        scan_policy (set_policy p' row),
        ap (λ k. found_policy (find row_key k (update_policy p' created).1)) (sym same)
            ∙ ap found_policy there,
        set_policy-ReadsBack p' row,
        refl,
      ),
    )
