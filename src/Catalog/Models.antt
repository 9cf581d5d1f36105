-- ===== src/Catalog/Models.antt =====
-- internal/catalog/models.go and errors.go: the records of the catalog. A UUID is a number, an
-- instant is the number of nanoseconds since Go's zero time, SQL NULL and a nil pointer are `none`,
-- and byte and file counts are natural numbers. The database admits the five job statuses only
-- (migrations/000023), so a status is one of five constructors.
use opensourcebackup.Prelude.{ℕ, ◌*◌, String, Bool, true, false, ◌||◌, Option, List, ltb}

-- Durations, in nanoseconds.
abbrev pub second : ℕ
second = 1_000_000_000

abbrev pub minute : ℕ
minute = 60 * second

abbrev pub hour : ℕ
hour = 60 * minute

pub data JobStatus : Type 0 where
  pending running success failed cancelled : JobStatus

abbrev pub is_pending : JobStatus → Bool
is_pending pending = true
is_pending _ = false

abbrev pub is_running : JobStatus → Bool
is_running running = true
is_running _ = false

abbrev pub is_success : JobStatus → Bool
is_success success = true
is_success _ = false

abbrev pub is_failed : JobStatus → Bool
is_failed failed = true
is_failed _ = false

-- The statuses that no guarded transition leaves.
abbrev pub is_terminal : JobStatus → Bool
is_terminal pending = false
is_terminal running = false
is_terminal _ = true

-- The `type` column: free text, of which the code compares the names below; `unset` is "".
pub data JobType : Type 0 where
  unset backup retention verify : JobType
  other : String → JobType

abbrev pub is_backup : JobType → Bool
is_backup backup = true
is_backup _ = false

abbrev pub is_retention : JobType → Bool
is_retention retention = true
is_retention _ = false

-- The percentage is a float that is only stored: here it is counted in thousandths.
pub record JobProgress : Type 0 where
  pub phase : String
  pub percent : ℕ
  pub bytes_done : ℕ
  pub bytes_total : ℕ
  pub files_done : ℕ
  pub files_total : ℕ
  pub throughput_bps : ℕ

pub record BackupJob : Type 0 where
  pub id : ℕ
  pub system_id : ℕ
  pub policy_id : ℕ
  pub type : JobType
  pub started_at : Option ℕ
  pub finished_at : Option ℕ
  pub status : JobStatus
  pub bytes_scanned : Option ℕ
  pub bytes_uploaded : Option ℕ
  pub error_summary : Option String
  pub raw_output : Option String
  pub created_at : ℕ
  pub progress : JobProgress
  pub last_progress_at : Option ℕ
  pub cancel_requested_at : Option ℕ
  pub cancel_reason : String

abbrev pub job_id : BackupJob → ℕ
job_id j = j.id

pub record RetentionPlan : Type 0 where
  pub keep_last : ℕ
  pub keep_daily : ℕ
  pub keep_weekly : ℕ
  pub keep_monthly : ℕ
  pub keep_yearly : ℕ

-- Whether any keep rule is configured.
unfoldable pub has_rules : RetentionPlan → Bool
has_rules r =
    ltb 0 r.keep_last
    || ltb 0 r.keep_daily
    || ltb 0 r.keep_weekly
    || ltb 0 r.keep_monthly
    || ltb 0 r.keep_yearly

pub record ScheduleConfig : Type 0 where
  pub cron : String
  pub timezone : String
  pub window_start : String
  pub window_end : String
  pub if_missed : String
  pub restore_test_cron : String
  pub retention_cron : String
  pub verify_cron : String
  pub verify_full : Bool

-- The free-form map `Retention` is not modelled.
pub record BackupPolicy : Type 0 where
  pub id : ℕ
  pub name : String
  pub includes : List String
  pub excludes : List String
  pub schedule : Option String
  pub schedule_config : ScheduleConfig
  pub bandwidth_limit_kbps : ℕ
  pub retention_plan : RetentionPlan
  pub engine : String
  pub pre_hooks : List String
  pub post_hooks : List String
  pub repository_id : Option ℕ
  pub created_at : ℕ

abbrev pub policy_key : BackupPolicy → ℕ
policy_key p = p.id

pub record Snapshot : Type 0 where
  pub id : ℕ
  pub job_id : ℕ
  pub engine_snapshot_id : String
  pub repository_id : ℕ
  pub created_at : ℕ
  pub hostname : Option String
  pub paths : List String
  pub checksum_status : String

pub record RestoreTest : Type 0 where
  pub id : ℕ
  pub snapshot_id : ℕ
  pub system_id : ℕ
  pub repository_id : ℕ
  pub status : JobStatus
  pub target_path : Option String
  pub started_at : Option ℕ
  pub finished_at : Option ℕ
  pub verified_files : Option ℕ
  pub verified_bytes : Option ℕ
  pub error_summary : Option String
  pub created_at : ℕ
  pub updated_at : ℕ

abbrev pub restore_test_key : RestoreTest → ℕ
restore_test_key rt = rt.id

-- The sentinel errors of the stores. The illegal transition carries the status that the job has.
pub data StoreError : Type 0 where
  not_found conflict : StoreError
  illegal_transition : JobStatus → StoreError

-- What a DELETE returns that foreign keys may refuse: an error of the store, or the database's.
pub data DeleteError : Type 0 where
  store_refused : StoreError → DeleteError
  still_referenced : DeleteError

pub data Result {ℓ κ} (E : Type ℓ) (A : Type κ) : Type (ℓ ⊔ κ) where
  ok : A → Result E A
  err : E → Result E A

abbrev pub is_ok {ℓ κ} : {E : Type ℓ} {A : Type κ} → Result E A → Bool
is_ok (ok _) = true
is_ok (err _) = false
