-- ===== src/Catalog/Systems.antt =====
-- internal/catalog/systems.go and the System record of models.go: the systems table, its heartbeat
-- column and its operation state.
use opensourcebackup.Auth.AgentTokens.{AgentToken, AgentTokens}
use opensourcebackup.Auth.Enrollment.{EnrollmentToken, EnrollmentTokens}
use opensourcebackup.Catalog.Models.{
  BackupJob, DeleteError, RestoreTest, Result, StoreError, err, not_found, ok, still_referenced,
  store_refused,
}
use opensourcebackup.Prelude.{
  Bool, List, Option, String, [], any_where, count_where, if◌then◌else◌, ltb, none, order_by, some,
  ℕ, ◌++◌, ◌==◌, ◌∷◌,
}
use opensourcebackup.Catalog.OperationState.{OperationState, active}
use opensourcebackup.Prelude.Table.{delete_where, find, update_where}

pub record System : Type 0 where
  pub id : ℕ
  pub hostname : String
  pub os : Option String
  pub agent_version : Option String
  pub last_seen : Option ℕ
  pub tags : List (String × String)
  pub risk_class : String
  pub operation_state : OperationState
  pub operation_state_changed_at : Option ℕ
  pub created_at : ℕ

abbrev pub system_key : System → ℕ
system_key s = s.id

-- UPDATE systems SET last_seen = $1 WHERE id = $2.
unfoldable pub update_last_seen : ℕ → ℕ → List System → Result StoreError (Unit {0}) × List System
update_last_seen id seen_at systems =
    let rows = count_where (λ s. system_key s == id) systems in
    let systems' =
      update_where (λ s. system_key s == id) (λ s. record s { last_seen = some seen_at }) systems in
    if ltb 0 rows then (ok tt, systems') else (err not_found, systems')

-- SELECT … FOR UPDATE, then UPDATE, in one transaction; the reply is the old state.
unfoldable pub set_operation_state :
    ℕ → OperationState → ℕ → List System → Result StoreError OperationState × List System
set_operation_state id new_state now systems = elim (find system_key id systems) [
  | none ↦ (err not_found, systems)
  | some old ↦ (
    ok old.operation_state,
    update_where (λ s. system_key s == id)
        (λ s. record s { operation_state = new_state; operation_state_changed_at = some now })
        systems,
  )
]

abbrev on_system : ℕ → System → Bool
on_system id s = system_key s == id

-- Create: the row has the database's defaults for the operation state and its time. The returned model
-- keeps what the caller gave, where an operation state that was not given counts as active.
unfoldable pub create_system : ℕ → ℕ → System → List System → System × List System
create_system new_id db_now s systems =
    let row : System = record s {
      id = new_id;
      operation_state = active;
      operation_state_changed_at = none;
      created_at = db_now;
    } in
    (record s { id = new_id; created_at = db_now }, systems ++ row ∷ [])

abbrev found_system : Option System → Result StoreError System
found_system none = err not_found
found_system (some s) = ok s

unfoldable pub get_system : ℕ → List System → Result StoreError System
get_system id systems = found_system (find system_key id systems)

abbrev newest_system_first : System → System → Bool
newest_system_first y x = ltb x.created_at y.created_at

unfoldable pub list_systems : List System → List System
list_systems systems = order_by newest_system_first systems

unfoldable pub update_system : System → List System → Result StoreError (Unit {0}) × List System
update_system s systems =
    let rows = count_where (on_system s.id) systems in
    let systems' =
      update_where (on_system s.id)
        (λ old. record old {
          hostname = s.hostname;
          os = s.os;
          agent_version = s.agent_version;
          last_seen = s.last_seen;
          tags = s.tags;
          risk_class = s.risk_class;
        })
        systems in
    if ltb 0 rows then (ok tt, systems') else (err not_found, systems')

-- The tables of which a foreign key refers to systems, but for that of jobs.
pub record SystemTables : Type 0 where
  pub systems : List System
  pub restore_tests : List RestoreTest
  pub enrollment_tokens : EnrollmentTokens
  pub agent_tokens : AgentTokens

abbrev without_system : ℕ → SystemTables → SystemTables
without_system id t = record {
  systems = delete_where (on_system id) t.systems;
  restore_tests = delete_where (λ (rt : RestoreTest). rt.system_id == id) t.restore_tests;
  enrollment_tokens = delete_where (λ (e : EnrollmentToken). e.system_id == id) t.enrollment_tokens;
  agent_tokens = delete_where (λ (a : AgentToken). a.system_id == id) t.agent_tokens;
}

-- The foreign key of jobs refuses a system that has some, and the others cascade.
unfoldable pub delete_system :
    List BackupJob → ℕ → SystemTables → Result DeleteError (Unit {0}) × SystemTables
delete_system jobs id t =
    if any_where (λ (j : BackupJob). j.system_id == id) jobs
    then (err still_referenced, t)
    else if ltb 0 (count_where (on_system id) t.systems)
    then (ok tt, without_system id t)
    else (err (store_refused not_found), without_system id t)
