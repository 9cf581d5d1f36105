-- ===== src/Catalog/Jobs/Queries.antt =====
-- internal/catalog/jobs.go: the queries of `pgJobStore`.
use opensourcebackup.Prelude.{
  ℕ, Bool, ◌&&◌, Option, none, some, List, [], ◌∷◌, ltb, ◌==◌, select_where, order_by,
}
use opensourcebackup.Prelude.Table.{find}
use opensourcebackup.Catalog.Models.{
  BackupJob, job_id, is_pending, is_backup, is_retention, Result, ok, err, StoreError, not_found,
}
use opensourcebackup.Catalog.Jobs.Statements.{Jobs}

abbrev pub found {ℓ} : {A : Type ℓ} → Option A → Result StoreError A
found none = err not_found
found (some a) = ok a

unfoldable pub get_by_id : ℕ → Jobs → Result StoreError BackupJob
get_by_id id jobs = found (find job_id id jobs)

-- ORDER BY created_at DESC, and ASC.
abbrev pub newest_first : BackupJob → BackupJob → Bool
newest_first y x = ltb x.created_at y.created_at

abbrev pub oldest_first : BackupJob → BackupJob → Bool
oldest_first y x = ltb y.created_at x.created_at

unfoldable pub list : Jobs → Jobs
list jobs = order_by newest_first jobs

unfoldable pub list_by_system_id : ℕ → Jobs → Jobs
list_by_system_id system_id jobs =
    order_by newest_first (select_where (λ j. j.system_id == system_id) jobs)

unfoldable pub list_pending_by_system_id : ℕ → Jobs → Jobs
list_pending_by_system_id system_id jobs =
    order_by oldest_first
      (select_where (λ j. j.system_id == system_id && is_pending j.status && is_backup j.type) jobs)

unfoldable pub list_pending_retention_by_system_id : ℕ → Jobs → Jobs
list_pending_retention_by_system_id system_id jobs = order_by oldest_first (
    select_where (λ j. j.system_id == system_id && is_pending j.status && is_retention j.type) jobs)

abbrev first_row {ℓ} : {A : Type ℓ} → List A → Option A
first_row [] = none
first_row (x ∷ _) = some x

unfoldable pub latest_by_policy_id : ℕ → Jobs → Result StoreError BackupJob
latest_by_policy_id policy_id jobs =
    found (first_row (order_by newest_first (select_where (λ j. j.policy_id == policy_id) jobs)))
