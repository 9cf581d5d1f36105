-- ===== src/Catalog/Snapshots.antt =====
-- internal/catalog/snapshots.go: the statements of `pgSnapshotStore` on the table snapshots.
use opensourcebackup.Prelude.{
  Bool, List, Option, [], count_where, false, if◌then◌else◌, ltb, none, order_by, select_where,
  some, ℕ, ◌++◌, ◌==◌, ◌∷◌,
}
use opensourcebackup.Catalog.Models.{
  BackupJob, RestoreTest, Result, Snapshot, StoreError, err, job_id, not_found, ok,
}
use opensourcebackup.Prelude.Table.{delete_where, find}

abbrev pub Snapshots : Type 0
Snapshots = List Snapshot

abbrev pub snapshot_key : Snapshot → ℕ
snapshot_key s = s.id

-- The INSERT takes its key and its time from the database.
unfoldable pub create : ℕ → ℕ → Snapshot → Snapshots → Snapshots
create new_id db_now s snapshots = snapshots ++ record s { id = new_id; created_at = db_now } ∷ []

abbrev found_snapshot : Option Snapshot → Result StoreError Snapshot
found_snapshot none = err not_found
found_snapshot (some s) = ok s

unfoldable pub get_by_id : ℕ → Snapshots → Result StoreError Snapshot
get_by_id id snapshots = found_snapshot (find snapshot_key id snapshots)

abbrev newest_first : Snapshot → Snapshot → Bool
newest_first y x = ltb x.created_at y.created_at

unfoldable pub list : Snapshots → Snapshots
list snapshots = order_by newest_first snapshots

unfoldable pub list_by_job_id : ℕ → Snapshots → Snapshots
list_by_job_id owner snapshots =
    order_by newest_first (select_where (λ s. s.job_id == owner) snapshots)

-- JOIN backup_jobs j ON j.id = sn.job_id WHERE j.system_id = $1.
abbrev of_system : ℕ → List BackupJob → Snapshot → Bool
of_system system_id jobs s = elim (find job_id s.job_id jobs) [
  | none ↦ false
  | some j ↦ j.system_id == system_id
]

unfoldable pub list_by_system : ℕ → List BackupJob → Snapshots → Snapshots
list_by_system system_id jobs snapshots =
    order_by newest_first (select_where (of_system system_id jobs) snapshots)

-- The snapshots and the restore tests, whose foreign key cascades.
abbrev pub SnapshotTables : Type 0
SnapshotTables = Snapshots × List RestoreTest

abbrev without_snapshot : ℕ → SnapshotTables → SnapshotTables
without_snapshot id tables = (
  delete_where (λ s. snapshot_key s == id) tables.0,
  delete_where (λ rt. rt.snapshot_id == id) tables.1,
)

unfoldable pub delete : ℕ → SnapshotTables → Result StoreError (Unit {0}) × SnapshotTables
delete id tables =
    let rows = count_where (λ s. snapshot_key s == id) tables.0 in
    if ltb 0 rows
    then (ok tt, without_snapshot id tables)
    else (err not_found, without_snapshot id tables)
