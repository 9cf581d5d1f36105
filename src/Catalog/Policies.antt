-- ===== src/Catalog/Policies.antt =====
-- internal/catalog/policies.go: the table of policies. A row has the columns of the migrations 000003,
-- 000006, 000018 and 000020; the free-form map `Retention` and its column are not modelled.
pub mod Storage
use opensourcebackup.Prelude.{
  Bool, List, Option, String, [], count_where, false, if◌then◌else◌, ltb, none, order_by,
  select_where, some, str_eq, map, ℕ, ◌++◌, ◌==◌, ◌∷◌,
}
use opensourcebackup.Catalog.Models.{
  BackupPolicy, DeleteError, Result, RetentionPlan, ScheduleConfig, StoreError, err, has_rules,
  not_found, ok, still_referenced, store_refused,
}
use opensourcebackup.Prelude.Table.{delete_where, find, update_where}

pub record PolicyRow : Type 0 where
  pub id : ℕ
  pub name : String
  pub includes : List String
  pub excludes : List String
  pub schedule : Option String
  pub engine : String
  pub pre_hooks : List String
  pub post_hooks : List String
  pub repository_id : Option ℕ
  pub created_at : ℕ
  pub keep : RetentionPlan
  pub timezone : String
  pub backup_window_start : String
  pub backup_window_end : String
  pub restore_test_schedule : String
  pub retention_schedule : String
  pub if_missed : String
  pub bandwidth_limit_kbps : ℕ
  pub verify_schedule : String
  pub verify_full : Bool

abbrev pub Policies : Type 0
Policies = List PolicyRow

abbrev pub row_key : PolicyRow → ℕ
row_key row = row.id

abbrev pub or_text : String → String → String
or_text s fallback = if str_eq s "" then fallback else s

abbrev pub schedule_text : Option String → String
schedule_text none = ""
schedule_text (some s) = s

-- The row of the INSERT, with the defaults of the columns that it does not write.
unfoldable pub inserted_row : ℕ → ℕ → BackupPolicy → PolicyRow
inserted_row new_id db_now p = record {
  id = new_id;
  name = p.name;
  includes = p.includes;
  excludes = p.excludes;
  schedule = p.schedule;
  engine = p.engine;
  pre_hooks = p.pre_hooks;
  post_hooks = p.post_hooks;
  repository_id = p.repository_id;
  created_at = db_now;
  keep = p.retention_plan;
  timezone = or_text p.schedule_config.timezone "UTC";
  backup_window_start = p.schedule_config.window_start;
  backup_window_end = p.schedule_config.window_end;
  restore_test_schedule = p.schedule_config.restore_test_cron;
  retention_schedule = p.schedule_config.retention_cron;
  if_missed = or_text p.schedule_config.if_missed "run_asap";
  bandwidth_limit_kbps = 0;
  verify_schedule = "";
  verify_full = false;
}

-- The SET clause of the UPDATE: the key, the time and the last three columns stay.
unfoldable pub set_policy : BackupPolicy → PolicyRow → PolicyRow
set_policy p row = record row {
  name = p.name;
  includes = p.includes;
  excludes = p.excludes;
  schedule = p.schedule;
  engine = p.engine;
  pre_hooks = p.pre_hooks;
  post_hooks = p.post_hooks;
  repository_id = p.repository_id;
  keep = p.retention_plan;
  timezone = or_text p.schedule_config.timezone "UTC";
  backup_window_start = p.schedule_config.window_start;
  backup_window_end = p.schedule_config.window_end;
  restore_test_schedule = p.schedule_config.restore_test_cron;
  retention_schedule = p.schedule_config.retention_cron;
  if_missed = or_text p.schedule_config.if_missed "run_asap";
}

-- The Cron of a fresh BackupPolicy is empty, so a schedule that is there is copied into it. The last
-- three columns are not read, and their parts have Go's zero values.
unfoldable pub scan_policy : PolicyRow → BackupPolicy
scan_policy row = record {
  id = row.id;
  name = row.name;
  includes = row.includes;
  excludes = row.excludes;
  schedule = row.schedule;
  schedule_config = record {
    cron = schedule_text row.schedule;
    timezone = row.timezone;
    window_start = row.backup_window_start;
    window_end = row.backup_window_end;
    if_missed = row.if_missed;
    restore_test_cron = row.restore_test_schedule;
    retention_cron = row.retention_schedule;
    verify_cron = "";
    verify_full = false;
  };
  bandwidth_limit_kbps = 0;
  retention_plan = row.keep;
  engine = row.engine;
  pre_hooks = row.pre_hooks;
  post_hooks = row.post_hooks;
  repository_id = row.repository_id;
  created_at = row.created_at;
}

-- Create gives the caller its own policy back, with the key and the time.
unfoldable pub create_policy : ℕ → ℕ → BackupPolicy → Policies → BackupPolicy × Policies
create_policy new_id db_now p policies =
    (record p { id = new_id; created_at = db_now }, policies ++ inserted_row new_id db_now p ∷ [])

abbrev pub found_policy : Option PolicyRow → Result StoreError BackupPolicy
found_policy none = err not_found
found_policy (some row) = ok (scan_policy row)

unfoldable pub get_policy_by_id : ℕ → Policies → Result StoreError BackupPolicy
get_policy_by_id id policies = found_policy (find row_key id policies)

abbrev newest_row_first : PolicyRow → PolicyRow → Bool
newest_row_first y x = ltb x.created_at y.created_at

unfoldable pub list_policies : Policies → List BackupPolicy
list_policies policies = map scan_policy (order_by newest_row_first policies)

unfoldable pub list_with_retention : Policies → List BackupPolicy
list_with_retention policies =
    map scan_policy (order_by newest_row_first (select_where (λ row. has_rules row.keep) policies))

unfoldable pub update_policy : BackupPolicy → Policies → Result StoreError (Unit {0}) × Policies
update_policy p policies =
    let rows = count_where (λ row. row_key row == p.id) policies in
    let policies' = update_where (λ row. row_key row == p.id) (set_policy p) policies in
    if ltb 0 rows then (ok tt, policies') else (err not_found, policies')

-- The foreign key of jobs refuses a policy that has some; `has_jobs` is their table.
unfoldable pub delete_policy : (ℕ → Bool) → ℕ → Policies → Result DeleteError (Unit {0}) × Policies
delete_policy has_jobs id policies =
    let rows = count_where (λ row. row_key row == id) policies in
    let policies' = delete_where (λ row. row_key row == id) policies in
    if has_jobs id
    then (err still_referenced, policies)
    else if ltb 0 rows
    then (ok tt, policies')
    else (err (store_refused not_found), policies')
