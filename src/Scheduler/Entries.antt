-- ===== src/Scheduler/Entries.antt =====
-- internal/scheduler/scheduler.go, reload: the cron entries of the policies.
use Prim.Native.String.{◌++◌ as text_append}
use opensourcebackup.Prelude.{
  Bool, List, Option, String, [], if◌then◌else◌, length, none, not, some, str_eq, ℕ, ◌&&◌, ◌++◌,
  ◌+◌, ◌∷◌,
}
use opensourcebackup.Catalog.Models.{BackupPolicy, has_rules}

-- *time.Location: UTC, or a location with its name.
pub data Location : Type 0 where
  utc : Location
  zone : String → Location

pub data Task : Type 0 where
  backup_task restore_test_task retention_task : Task

-- A registered function with its expression.
pub record CronEntry : Type 0 where
  pub policy : BackupPolicy
  pub task : Task
  pub expression : String

abbrev default_restore_test_cron : String
default_restore_test_cron = "0 3 * * 0"

unfoldable pub backup_cron : BackupPolicy → String
backup_cron p = elim p.schedule [
  | none ↦ p.schedule_config.cron
  | some s ↦ if str_eq p.schedule_config.cron "" then s else p.schedule_config.cron
]

abbrev or_utc : Option Location → Location
or_utc none = utc
or_utc (some l) = l

unfoldable pub with_location : String → Location → String
with_location expr utc = expr
with_location expr (zone name) = text_append "TZ=" (text_append name (text_append " " expr))

-- time.LoadLocation, whether AddFunc accepts an expression, and whether a store of restore tests is
-- wired.
module _ (load_location : String → Option Location) (accepts : String → Bool)
    (has_restore_tests : Bool) where
  unfoldable pub location_for : String → Location
  location_for tz = if str_eq tz "" then utc else or_utc (load_location tz)

  -- AddFunc: an expression that it does not accept is skipped.
  abbrev add_entry : BackupPolicy → Task → String → List CronEntry
  add_entry p task expr =
      if accepts expr then record { policy = p; task = task; expression = expr } ∷ [] else []

  unfoldable pub backup_entries : BackupPolicy → List CronEntry
  backup_entries p =
      if str_eq (backup_cron p) ""
      then []
      else add_entry p backup_task
          (with_location (backup_cron p) (location_for p.schedule_config.timezone))

  unfoldable pub restore_test_cron_of : BackupPolicy → String
  restore_test_cron_of p =
      if str_eq p.schedule_config.restore_test_cron "" && not (str_eq (backup_cron p) "")
      then default_restore_test_cron
      else p.schedule_config.restore_test_cron

  unfoldable pub restore_test_entries : BackupPolicy → List CronEntry
  restore_test_entries p =
      if not (str_eq (restore_test_cron_of p) "") && has_restore_tests
      then add_entry p restore_test_task
          (with_location (restore_test_cron_of p) (location_for p.schedule_config.timezone))
      else []

  unfoldable pub retention_entries : BackupPolicy → List CronEntry
  retention_entries p =
      if not (str_eq p.schedule_config.retention_cron "") && has_rules p.retention_plan
      then add_entry p retention_task
          (with_location p.schedule_config.retention_cron (location_for p.schedule_config.timezone))
      else []

  -- The entries of the new cron, and the number of scheduled policies that is logged.
  unfoldable pub reload : List BackupPolicy → List CronEntry × ℕ
  reload [] = ([], 0)
  reload (p ∷ ps) =
      let (entries, scheduled) = reload ps in
      (
        backup_entries p ++ restore_test_entries p ++ retention_entries p ++ entries,
        length (backup_entries p) + scheduled,
      )
