-- ===== src/Catalog/RestoreTests.antt =====
-- internal/catalog/restore_tests.go: the statements of `pgRestoreTestStore` on the table
-- restore_tests. Its statuses are written by the code only, and are four of the job statuses.
use opensourcebackup.Prelude.{
  Bool, List, Option, [], count_where, if◌then◌else◌, ltb, none, order_by, select_where, some, ℕ,
  ◌&&◌, ◌++◌, ◌==◌, ◌∷◌,
}
use opensourcebackup.Catalog.Jobs.Queries.{found}
use opensourcebackup.Catalog.Models.{
  RestoreTest, Result, StoreError, err, is_pending, is_success, not_found, ok, restore_test_key,
  running,
}
use opensourcebackup.Prelude.Table.{delete_where, find, update_where}

abbrev pub RestoreTests : Type 0
RestoreTests = List RestoreTest

-- The INSERT writes the references, the status and the target, and the database the key and times.
unfoldable pub create : ℕ → ℕ → RestoreTest → RestoreTests → RestoreTest × RestoreTests
create new_id db_now rt tests =
    let row : RestoreTest = record rt {
      id = new_id;
      started_at = none;
      finished_at = none;
      verified_files = none;
      verified_bytes = none;
      error_summary = none;
      created_at = db_now;
      updated_at = db_now;
    } in
    (row, tests ++ row ∷ [])

abbrev pub on_test : ℕ → RestoreTest → Bool
on_test id rt = restore_test_key rt == id

-- The columns of the UPDATE, with the time of the call.
abbrev pub set_test : RestoreTest → ℕ → RestoreTest → RestoreTest
set_test rt now old = record old {
  status = rt.status;
  started_at = rt.started_at;
  finished_at = rt.finished_at;
  verified_files = rt.verified_files;
  verified_bytes = rt.verified_bytes;
  error_summary = rt.error_summary;
  updated_at = now;
}

unfoldable pub update : RestoreTest → ℕ → RestoreTests → Result StoreError (Unit {0}) × RestoreTests
update rt now tests =
    let rows = count_where (on_test rt.id) tests in
    let tests' = update_where (on_test rt.id) (set_test rt now) tests in
    if ltb 0 rows then (ok tt, tests') else (err not_found, tests')

unfoldable pub get_by_id : ℕ → RestoreTests → Result StoreError RestoreTest
get_by_id id tests = found (find restore_test_key id tests)

abbrev newest_first : RestoreTest → RestoreTest → Bool
newest_first y x = ltb x.created_at y.created_at

abbrev oldest_first : RestoreTest → RestoreTest → Bool
oldest_first y x = ltb y.created_at x.created_at

unfoldable pub list : RestoreTests → RestoreTests
list tests = order_by newest_first tests

unfoldable pub list_by_snapshot_id : ℕ → RestoreTests → RestoreTests
list_by_snapshot_id snapshot_id tests =
    order_by newest_first (select_where (λ rt. rt.snapshot_id == snapshot_id) tests)

unfoldable pub list_by_system_id : ℕ → RestoreTests → RestoreTests
list_by_system_id system_id tests =
    order_by newest_first (select_where (λ rt. rt.system_id == system_id) tests)

abbrev pub set_claimed : ℕ → RestoreTest → RestoreTest
set_claimed now rt = record rt { status = running; started_at = some now; updated_at = now }

abbrev claimable : ℕ → RestoreTest → Bool
claimable system_id rt = rt.system_id == system_id && is_pending rt.status

abbrev first_test : RestoreTests → Option RestoreTest
first_test [] = none
first_test (rt ∷ _) = some rt

-- The subquery of ClaimNextPending. Another claim holds no lock, since each claim is one statement.
unfoldable pub next_pending : ℕ → RestoreTests → Option RestoreTest
next_pending system_id tests =
    first_test (order_by oldest_first (select_where (claimable system_id) tests))

abbrev pub claim_row :
    Option RestoreTest → ℕ → RestoreTests → Result StoreError RestoreTest × RestoreTests
claim_row none db_now tests = (err not_found, tests)
claim_row (some rt) db_now tests =
    (ok (set_claimed db_now rt), update_where (on_test rt.id) (set_claimed db_now) tests)

unfoldable pub claim_next_pending :
    ℕ → ℕ → RestoreTests → Result StoreError RestoreTest × RestoreTests
claim_next_pending system_id db_now tests = claim_row (next_pending system_id tests) db_now tests

unfoldable pub has_successful_test : ℕ → RestoreTests → Bool
has_successful_test snapshot_id tests =
    ltb 0 (count_where (λ rt. rt.snapshot_id == snapshot_id && is_success rt.status) tests)

unfoldable pub delete : ℕ → RestoreTests → Result StoreError (Unit {0}) × RestoreTests
delete id tests =
    let rows = count_where (on_test id) tests in
    let tests' = delete_where (on_test id) tests in
    if ltb 0 rows then (ok tt, tests') else (err not_found, tests')
