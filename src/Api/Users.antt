-- ===== src/Api/Users.antt =====
-- internal/api/users.go and rbac.go: the users of the dashboard and their sessions. A user store, the
-- session manager and the audit log are wired.
pub mod AdminCount
pub mod LastAdmin
pub mod Revocation
use opensourcebackup.Audit
use opensourcebackup.Prelude.{
  Bool, List, Option, String, false, if◌then◌else◌, leb, map, none, not, some, str_eq, ℕ, ◌&&◌,
  ◌||◌,
}
use opensourcebackup.Api.Http.{
  Body, Flow, Response, error, finish, go, reply, require, require_body, require_true, stop, ◌>>=◌,
  ◌>>◌,
}
use opensourcebackup.Audit.{
  Action, action_create, action_delete, action_update, as_failed, auth_login, auth_login_fail,
  from_ip, resource_auth, with_details, with_severity,
}
use opensourcebackup.Auth.Sessions.{
  Session, SessionError, Sessions, create_session, get_session, revoke_by_user, role_from_context,
}
use opensourcebackup.Auth.Users.{
  Role, User, UserError, Users, count_by_role, create_user, delete_user, email_taken, get_user,
  get_user_by_email, is_active, is_admin, is_valid_role, list_users, role_admin, role_at_least,
  role_viewer, update_role, user_not_found,
}
use opensourcebackup.Catalog.Models.{Result, err, ok}

-- The state behind the handlers.
pub record Accounts : Type 0 where
  pub users : Users
  pub sessions : Sessions
  pub audit_log : List Audit.Entry

-- The clock, the keys that the database and crypto/rand make, whether CountByRole succeeds, bcrypt,
-- the length of a text in bytes, and the texts of fmt.Sprintf.
pub record AccountEnv : Type 0 where
  pub now : ℕ
  pub new_id : ℕ
  pub new_token : Option ℕ
  pub counts : Bool
  pub hash_password : String → Option String
  pub verify_password : String → String → Bool
  pub byte_length : String → ℕ
  pub client_ip : String
  pub email_text : String → String
  pub created_text : String → Role → String
  pub role_text : Role → String

pub record NewUser : Type 0 where
  pub email : String
  pub password : String
  pub role : Option Role
  pub display_name : String

-- safeUser: a user without the password hash.
pub record SafeUser : Type 0 where
  pub id : ℕ
  pub email : String
  pub role : Role
  pub display_name : String
  pub created_at : ℕ
  pub active : Bool
  pub disabled_at : Option ℕ

unfoldable pub safe_user : User → SafeUser
safe_user u = record {
  id = u.id;
  email = u.email;
  role = u.role;
  display_name = u.display_name;
  created_at = u.created_at;
  active = is_active u;
  disabled_at = u.disabled_at;
}

pub data UserReply : Type 0 where
  user_view : SafeUser → UserReply
  users_view : List SafeUser → UserReply
  status_ok no_user_content : UserReply

abbrev pub UserAnswer : Type 0
UserAnswer = Response UserReply × Accounts

-- httpStatusForError knows the errors of the catalog only.
abbrev pub user_error_status : UserError → ℕ
user_error_status _ = 500

abbrev pub require_user_ok {ℓ κ} :
    {R : Type ℓ} {A : Type κ} → Result UserError A → (UserError → R) → Flow R A
require_user_ok (ok a) f = go a
require_user_ok (err e) f = stop (f e)

-- requireRoleFn in front of a handler: the session is the one that the middleware found.
unfoldable pub require_role : Role → Option Session → Accounts → Flow UserAnswer (Unit {0})
require_role minimum session s =
    require_true (role_at_least (role_from_context session) minimum) (error 403, s)

abbrev pub or_viewer : Option Role → Role
or_viewer none = role_viewer
or_viewer (some r) = r

-- The target exists and is an admin, of whatever activity.
abbrev pub is_admin_user : Result UserError User → Bool
is_admin_user (ok u) = is_admin u.role
is_admin_user (err _) = false

module _ (env : AccountEnv) where
  -- The test that keeps the last admin; a failing count lets the request through.
  unfoldable pub is_last_admin : ℕ → Users → Bool
  is_last_admin id users =
      env.counts && (leb (count_by_role role_admin users) 1 && is_admin_user (get_user id users))

  abbrev log_user : Audit.Severity → Action → ℕ → String → Accounts → Accounts
  log_user severity action id details s = record s {
    audit_log =
        Audit.append env.now
          (with_severity severity (
            with_details details
              (from_ip env.client_ip (Audit.by Audit.admin (Audit.event action resource_auth id)))))
          s.audit_log;
  }

  unfoldable pub handle_list_users : Option Session → Accounts → Response UserReply
  handle_list_users session s =
      (finish do
        require_role role_admin session s
        go (reply 200 (users_view (map safe_user (list_users s.users))), s)).0

  abbrev create_status : UserError → ℕ
  create_status email_taken = 409
  create_status user_not_found = 500

  abbrev pub write_created : Result UserError User × Users → Accounts → UserAnswer
  write_created (err e, users) s = (error (create_status e), record s { users = users })
  write_created (ok u, users) s = (
    reply 201 (user_view (safe_user u)),
    log_user Audit.info action_create u.id (env.created_text u.email u.role)
        (record s { users = users }),
  )

  abbrev pub insert_user : Accounts → NewUser → String → Flow UserAnswer UserAnswer
  insert_user s req hash = go (
      write_created
        (create_user env.new_id env.now req.email hash (or_viewer req.role) req.display_name
          s.users)
        s)

  -- Four checks, on the names, the role, the password's length and its hash.
  abbrev pub check_hash : Accounts → NewUser → Flow UserAnswer UserAnswer
  check_hash s req = require (env.hash_password req.password) (error 500, s) >>= insert_user s req

  abbrev pub check_length : Accounts → NewUser → Flow UserAnswer UserAnswer
  check_length s req =
      require_true (leb 10 (env.byte_length req.password)) (error 400, s) >> check_hash s req

  abbrev pub check_role : Accounts → NewUser → Flow UserAnswer UserAnswer
  check_role s req =
      require_true (is_valid_role (or_viewer req.role)) (error 400, s) >> check_length s req

  abbrev pub check_new_user : Accounts → NewUser → Flow UserAnswer UserAnswer
  check_new_user s req =
      require_true (not (str_eq req.email "" || str_eq req.password "")) (error 400, s)
      >> check_role s req

  unfoldable pub handle_create_user : Option Session → Body NewUser → Accounts → UserAnswer
  handle_create_user session body s = finish (
      require_role role_admin session s
      >> (require_body body (λ c. (error c, s)) >>= check_new_user s))

  abbrev pub demotes_last : ℕ → Role → Users → Bool
  demotes_last id role users = not (is_admin role) && is_last_admin id users

  abbrev pub write_role : ℕ → Role → Result UserError (Unit {0}) × Users → Accounts → UserAnswer
  write_role id role (err e, users) s = (error (user_error_status e), record s { users = users })
  write_role id role (ok _, users) s = (
    reply 200 status_ok,
    log_user Audit.warning action_update id (env.role_text role)
        (record s { users = users; sessions = revoke_by_user id s.sessions }),
  )

  abbrev pub set_checked_role : Accounts → ℕ → Role → Flow UserAnswer UserAnswer
  set_checked_role s id role =
      require_true (not (demotes_last id role s.users)) (error 409, s)
      >> go (write_role id role (update_role id role env.now s.users) s)

  abbrev pub check_new_role : Accounts → ℕ → Role → Flow UserAnswer UserAnswer
  check_new_role s id role =
      require_true (is_valid_role role) (error 400, s) >> set_checked_role s id role

  abbrev pub read_new_role : Accounts → Body Role → ℕ → Flow UserAnswer UserAnswer
  read_new_role s body id = require_body body (λ c. (error c, s)) >>= check_new_role s id

  unfoldable pub handle_update_user_role :
      Option Session → Option ℕ → Body Role → Accounts → UserAnswer
  handle_update_user_role session path_id body s = finish (
      require_role role_admin session s
      >> (require path_id (error 400, s) >>= read_new_role s body))

  abbrev pub write_deleted : ℕ → Result UserError (Unit {0}) × Users → Accounts → UserAnswer
  write_deleted id (err e, users) s = (error (user_error_status e), record s { users = users })
  write_deleted id (ok _, users) s = (
    reply 204 no_user_content,
    log_user Audit.warning action_delete id "" (record s { users = users }),
  )

  -- The sessions go first, whatever becomes of the row.
  abbrev pub delete_checked : Accounts → ℕ → Flow UserAnswer UserAnswer
  delete_checked s id =
      require_true (not (is_last_admin id s.users)) (error 409, s)
      >> go (
          write_deleted id (delete_user id s.users)
            (record s { sessions = revoke_by_user id s.sessions }))

  unfoldable pub handle_delete_user : Option Session → Option ℕ → Accounts → UserAnswer
  handle_delete_user session path_id s =
      finish
        (require_role role_admin session s >> (require path_id (error 400, s) >>= delete_checked s))

  abbrev pub admitted : String → Result UserError User → Option User
  admitted password (err _) = none
  admitted password (ok u) =
      if is_active u && env.verify_password password u.password_hash then some u else none

  -- The path of handleRBACLogin with an email; the legacy password is not modelled.
  abbrev pub login_session : Option ℕ → User → Accounts → UserAnswer
  login_session none u s = (error 500, s)
  login_session (some token) u s = (
    reply 200 (user_view (safe_user u)),
    record s {
      sessions = create_session token env.now u env.client_ip s.sessions;
      audit_log =
          Audit.append env.now
            (from_ip env.client_ip
              (record (Audit.by Audit.admin (Audit.event auth_login resource_auth u.id)) {
                actor = u.email;
              }))
            s.audit_log;
    },
  )

  abbrev login_failed : String → Accounts → UserAnswer
  login_failed email s = (
    error 401,
    record s {
      audit_log =
          Audit.append env.now
            (as_failed (
              with_severity Audit.warning (
                with_details (env.email_text email) (
                  from_ip env.client_ip
                    (Audit.by Audit.admin (Audit.event auth_login_fail resource_auth 0))))))
            s.audit_log;
    },
  )

  abbrev pub login_user : String → Option User → Accounts → UserAnswer
  login_user email none s = login_failed email s
  login_user email (some u) s = login_session env.new_token u s

  unfoldable pub handle_rbac_login : String → String → Accounts → UserAnswer
  handle_rbac_login email password s =
      login_user email (admitted password (get_user_by_email email s.users)) s

abbrev require_session : Result SessionError Session → UserAnswer → Flow UserAnswer Session
require_session (ok x) a = go x
require_session (err _) a = stop a

-- RBACMiddlewareWithAuth on a path under /v1/ that is neither public nor an agent's, with
-- authentication on: the session that the handler sees, or 401.
unfoldable pub rbac_middleware : ℕ → Option ℕ → Accounts → Flow UserAnswer Session × Accounts
rbac_middleware now token s =
    let (answer, sessions) = get_session now token s.sessions in
    let s' = record s { sessions = sessions } in (require_session answer (error 401, s'), s')
