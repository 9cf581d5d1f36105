-- ===== src/Api/Systems.antt =====
-- internal/api/systems.go: the handlers for operators on systems.
use opensourcebackup.Auth.AgentTokens.{AgentTokens}
use opensourcebackup.Auth.Enrollment.{EnrollmentTokens}
use opensourcebackup.Api.Http.{
  Body, Flow, Response, delete_status, error, finish, go, http_status_for_error, reply, require,
  require_body, require_ok, require_true, stop, ◌>>=◌, ◌>>◌,
}
use opensourcebackup.Catalog.Systems.{
  System, SystemTables, create_system, delete_system, get_system, list_systems, set_operation_state,
  update_system,
}
use opensourcebackup.Catalog.Models.{DeleteError, Result, StoreError, err, ok}
use opensourcebackup.Prelude.{List, Option, String, if◌then◌else◌, map, not, str_eq, ℕ}
use opensourcebackup.Api.Server.{Server, Surroundings}
use opensourcebackup.Audit.{
  from_ip, resource_system, system_operation_state_changed, with_details, with_severity,
}
use opensourcebackup.Catalog.OperationState.{HealthState, OperationState, derive_health_state}
use opensourcebackup.Audit

-- A system with its derived health.
pub record SystemView : Type 0 where
  pub stored : System
  pub health_state : HealthState

unfoldable pub to_system_view : ℕ → System → SystemView
to_system_view now s = record { stored = s; health_state = derive_health_state s.last_seen now }

pub data SystemReply : Type 0 where
  system_view : SystemView → SystemReply
  system_row : System → SystemReply
  system_views : List SystemView → SystemReply
  no_system_content : SystemReply

abbrev pub SystemAnswer : Type 0
SystemAnswer = Response SystemReply × Server

abbrev with_systems : List System → Server → Server
with_systems systems s = record s { catalog = record s.catalog { systems = systems } }

abbrev refuse_system : Server → StoreError → SystemAnswer
refuse_system s e = (error (http_status_for_error e), s)

abbrev pub SystemTokens : Type 0
SystemTokens = EnrollmentTokens × AgentTokens

abbrev deletion_reply : Result DeleteError (Unit {0}) → Response SystemReply
deletion_reply (ok _) = reply 204 no_system_content
deletion_reply (err e) = error (delete_status e)

-- The body of setOperationState: the state if it is one of the four, and the reason.
pub record StateBody : Type 0 where
  pub state : Option OperationState
  pub reason : String

module _ (env : Surroundings) where
  unfoldable pub handle_list_systems : Server → Response SystemReply
  handle_list_systems s =
      reply 200 (system_views (map (to_system_view env.now) (list_systems s.catalog.systems)))

  abbrev write_new_system : System × List System → Server → SystemAnswer
  write_new_system (row, systems) s = (reply 201 (system_row row), with_systems systems s)

  unfoldable pub handle_create_system : Body System → Server → SystemAnswer
  handle_create_system body s = finish do
    b ← require_body body (λ c. (error c, s))
    require_true (not (str_eq b.hostname "")) (error 400, s)
    let risk = if str_eq b.risk_class "" then "standard" else b.risk_class
    go (
        write_new_system
          (create_system env.new_id env.now (record b { risk_class = risk }) s.catalog.systems) s)

  unfoldable pub handle_get_system : Option ℕ → Server → SystemAnswer
  handle_get_system path_id s = finish do
    id ← require path_id (error 400, s)
    found_row ← require_ok (get_system id s.catalog.systems) (refuse_system s)
    go (reply 200 (system_view (to_system_view env.now found_row)), s)

  abbrev write_system :
      SystemReply → ℕ → Result StoreError (Unit {0}) × List System → Server → SystemAnswer
  write_system r code (ok _, systems) s = (reply code r, with_systems systems s)
  write_system r code (err e, systems) s = refuse_system (with_systems systems s) e

  unfoldable pub handle_update_system : Option ℕ → Body System → Server → SystemAnswer
  handle_update_system path_id body s = finish do
    id ← require path_id (error 400, s)
    b ← require_body body (λ c. (error c, s))
    let row = record b { id = id }
    go (write_system (system_row row) 200 (update_system row s.catalog.systems) s)

  -- The server with the tokens, which the deletion takes along.
  abbrev tables_of : SystemTokens → Server → SystemTables
  tables_of tokens s = record {
    systems = s.catalog.systems;
    restore_tests = s.restore_tests;
    enrollment_tokens = tokens.0;
    agent_tokens = tokens.1;
  }

  abbrev write_deleted_system :
      Result DeleteError (Unit {0}) × SystemTables
      → Server
      → Response SystemReply × (SystemTokens × Server)
  write_deleted_system (outcome, t) s = (
    deletion_reply outcome,
    (
      (t.enrollment_tokens, t.agent_tokens),
      record (with_systems t.systems s) { restore_tests = t.restore_tests },
    ),
  )

  unfoldable pub handle_delete_system :
      Option ℕ → SystemTokens → Server → Response SystemReply × (SystemTokens × Server)
  handle_delete_system path_id tokens s = finish do
    id ← require path_id (error 400, (tokens, s))
    go (write_deleted_system (delete_system s.catalog.jobs id (tables_of tokens s)) s)

  -- The actor of the session, the text of fmt.Sprintf, and the reason as auditSafe bounds it.
  abbrev log_state :
      String
      → (OperationState → OperationState → String → String)
      → ℕ
      → OperationState
      → OperationState
      → String
      → Server
      → Server
  log_state actor details id old new reason s = record s {
    audit_log =
        Audit.append env.now
          (with_severity Audit.info (
            with_details (details old new reason) (
              from_ip env.client_ip
                (record (Audit.by Audit.admin
                  (Audit.event system_operation_state_changed resource_system id)) {
                    actor = actor;
                  }))))
          s.audit_log;
  }

  abbrev state_written :
      String
      → (OperationState → OperationState → String → String)
      → ℕ
      → OperationState
      → String
      → Result StoreError OperationState × List System
      → Server
      → Flow SystemAnswer Server
  state_written actor details id new reason (err e, systems) s =
      stop (refuse_system (with_systems systems s) e)
  state_written actor details id new reason (ok old, systems) s =
      go (log_state actor details id old new reason (with_systems systems s))

  unfoldable pub handle_set_operation_state :
      String
      → (OperationState → OperationState → String → String)
      → Option ℕ
      → Body StateBody
      → Server
      → SystemAnswer
  handle_set_operation_state actor details path_id body s = finish do
    id ← require path_id (error 400, s)
    b ← require_body body (λ c. (error c, s))
    state ← require b.state (error 400, s)
    s' ←
        state_written actor details id state b.reason
          (set_operation_state id state env.now s.catalog.systems) s
    row ← require_ok (get_system id s'.catalog.systems) (refuse_system s')
    go (reply 200 (system_view (to_system_view env.now row)), s')
