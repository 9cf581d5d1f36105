-- ===== src/Api/Users/LastAdmin.antt =====
-- internal/api/users.go: the guards of the last admin, over the calls on users.
use opensourcebackup.Prelude.{
  Bool, Option, String, arith, false, leb, none, not, some, str_eq, true, ℕ, ◌||◌, ◌≡◌,
}
use opensourcebackup.Api.Http.{
  Body, Flow, Response, error, finish, finish-require, finish-require_body, finish-require_true, go,
  ◌>>◌,
}
use opensourcebackup.Api.Users.{
  AccountEnv, Accounts, NewUser, UserAnswer, UserReply, admitted, check_hash, check_length,
  check_new_role, check_new_user, check_role, delete_checked, demotes_last, handle_create_user,
  handle_delete_user, handle_rbac_login, handle_update_user_role, insert_user, is_last_admin,
  login_session, login_user, or_viewer, read_new_role, require_role, set_checked_role,
  write_created, write_deleted, write_role,
}
use opensourcebackup.Api.Users.AdminCount.{
  HasAdmin, create-HasAdmin, delete-HasAdmin, role-HasAdmin,
}
use opensourcebackup.Auth.Sessions.{Session, revoke_by_user, role_from_context}
use opensourcebackup.Auth.Users.{
  Role, User, UserError, Users, delete_user, get_user_by_email, is_valid_role, role_admin,
  role_at_least, update_role, user_key,
}
use opensourcebackup.Catalog.Models.{Result, err, ok}
use opensourcebackup.Prelude.Table.{find}

-- The routes on users, and the login.
pub data UserCall : Type 0 where
  call_create_user : Body NewUser → UserCall
  call_update_role : Option ℕ → Body Role → UserCall
  call_delete_user : Option ℕ → UserCall
  call_login : String → String → UserCall

unfoldable pub serve_users : AccountEnv → Option Session → UserCall → Accounts → UserAnswer
serve_users env session (call_create_user body) s = handle_create_user env session body s
serve_users env session (call_update_role id body) s = handle_update_user_role env session id body s
serve_users env session (call_delete_user id) s = handle_delete_user env session id s
serve_users env session (call_login email password) s = handle_rbac_login env email password s

-- A call at which the database can count the admins and makes a new key.
pub data AccountStep : Accounts → Accounts → Type 0 where
  called :
      (env : AccountEnv) (session : Option Session) (call : UserCall) (s : Accounts)
      → env.counts ≡ true
      → find user_key env.new_id s.users ≡ none
      → AccountStep s (serve_users env session call s).1

pub data AccountReach (s : Accounts) : Accounts → Type 0 where
  no_calls : AccountReach s s
  more_calls : {t v : Accounts} → AccountReach s t → AccountStep t v → AccountReach s v

record Keeps (a : UserAnswer) : Type 0 where
  kept : HasAdmin a.1.users

module _ (env : AccountEnv) (s : Accounts) (counts : env.counts ≡ true) (h : HasAdmin s.users) where
  not-true : (b : Bool) → not b ≡ true → b ≡ false
  not-true b e = ground (arith, e)

  role_written :
      (id : ℕ) (role : Role) (o : Result UserError (Unit {0}) × Users)
      → HasAdmin o.1
      → Keeps (write_role env id role o s)
  role_written id role (ok _, users) k = record { kept = k }
  role_written id role (err _, users) k = record { kept = k }

  deletion_written :
      (id : ℕ) (o : Result UserError (Unit {0}) × Users) (s' : Accounts)
      → HasAdmin o.1
      → Keeps (write_deleted env id o s')
  deletion_written id (ok _, users) s' k = record { kept = k }
  deletion_written id (err _, users) s' k = record { kept = k }

  creation_written :
      (o : Result UserError User × Users) → HasAdmin o.1 → Keeps (write_created env o s)
  creation_written (ok _, users) k = record { kept = k }
  creation_written (err _, users) k = record { kept = k }

  unchanged : (r : Response UserReply) → Keeps (r, s)
  unchanged r = record { kept = h }

  login_written : (email : String) (u : Option User) → Keeps (login_user env email u s)
  login_written email none = record { kept = h }
  login_written email (some u) = session_written env.new_token
    where
      session_written : (token : Option ℕ) → Keeps (login_session env token u s)
      session_written none = unchanged _
      session_written (some _) = record { kept = h }

  -- requireRoleFn in front of a handler.
  behind_role :
      (session : Option Session) (m : Flow UserAnswer UserAnswer)
      → Keeps (finish m)
      → Keeps (finish (require_role role_admin session s >> m))
  unfolding require_role
  behind_role session m k =
      finish-require_true Keeps m (role_at_least (role_from_context session) role_admin)
        (error 403, s) (λ _. unchanged (error 403)) (λ _. k)

  created-Keeps :
      (req : NewUser)
      → find user_key env.new_id s.users ≡ none
      → Keeps (finish (check_new_user env s req))
  created-Keeps req fresh_key =
      finish-require_true Keeps (check_role env s req)
        (not (str_eq req.email "" || str_eq req.password "")) (error 400, s)
        (λ _. unchanged (error 400))
        (λ _.
          finish-require_true Keeps (check_length env s req) (is_valid_role (or_viewer req.role))
            (error 400, s) (λ _. unchanged (error 400))
            (λ _.
              finish-require_true Keeps (check_hash env s req)
                (leb 10 (env.byte_length req.password)) (error 400, s) (λ _. unchanged (error 400))
                (λ _.
                  finish-require Keeps (insert_user env s req) (env.hash_password req.password)
                    (error 500, s) (λ _. unchanged (error 500))
                    (λ hash _. creation_written _ (
                      create-HasAdmin env s counts h req.email hash req.display_name
                        (or_viewer req.role) fresh_key)))))

  role-Keeps : (id : ℕ) (role : Role) → Keeps (finish (check_new_role env s id role))
  role-Keeps id role =
      finish-require_true Keeps (set_checked_role env s id role) (is_valid_role role) (error 400, s)
        (λ _. unchanged (error 400))
        (λ _.
          finish-require_true Keeps
            (go (write_role env id role (update_role id role env.now s.users) s))
            (not (demotes_last env id role s.users)) (error 409, s) (λ _. unchanged (error 409))
            (λ allowed.
              role_written id role _ (role-HasAdmin env s counts h id role (not-true _ allowed))))

  deleted-Keeps : (id : ℕ) → Keeps (finish (delete_checked env s id))
  deleted-Keeps id =
      let s' : Accounts = record s { sessions = revoke_by_user id s.sessions } in
      finish-require_true Keeps (go (write_deleted env id (delete_user id s.users) s'))
        (not (is_last_admin env id s.users)) (error 409, s) (λ _. unchanged (error 409))
        (λ allowed.
          deletion_written id _ s' (delete-HasAdmin env s counts h id (not-true _ allowed)))

  serve_users-Keeps :
      (session : Option Session) (call : UserCall)
      → find user_key env.new_id s.users ≡ none
      → Keeps (serve_users env session call s)
  unfolding serve_users handle_create_user handle_update_user_role handle_delete_user
      handle_rbac_login
  serve_users-Keeps session (call_create_user body) fresh_key = behind_role session _ (
      finish-require_body Keeps (check_new_user env s) body (λ c. (error c, s))
        (λ c _. unchanged (error c)) (λ req _. created-Keeps req fresh_key))
  serve_users-Keeps session (call_update_role path_id body) fresh_key = behind_role session _ (
      finish-require Keeps (read_new_role env s body) path_id (error 400, s)
        (λ _. unchanged (error 400))
        (λ id _.
          finish-require_body Keeps (check_new_role env s id) body (λ c. (error c, s))
            (λ c _. unchanged (error c)) (λ role _. role-Keeps id role)))
  serve_users-Keeps session (call_delete_user path_id) fresh_key = behind_role session _ (
      finish-require Keeps (delete_checked env s) path_id (error 400, s)
        (λ _. unchanged (error 400)) (λ id _. deleted-Keeps id))
  serve_users-Keeps session (call_login email password) fresh_key =
      login_written email (admitted env password (get_user_by_email email s.users))

-- No sequence of calls on users removes the last active admin: where user keys are distinct and an
-- active admin exists, keys stay distinct and an active admin exists after any calls by anybody,
-- creations, changes of roles, deletions and logins, so long as the database gives new rows new keys
-- and can count the admins.
pub AccountReach-HasAdmin :
    {s t : Accounts} → AccountReach s t → HasAdmin s.users → HasAdmin t.users
AccountReach-HasAdmin no_calls h = h
AccountReach-HasAdmin (more_calls before (called env session call v counts fresh_key)) h =
    (serve_users-Keeps env v counts (AccountReach-HasAdmin before h) session call fresh_key).kept
