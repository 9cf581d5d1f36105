-- ===== src/Scenarios/Access.antt =====
-- The theorems on users, sessions and the rate limit.
use opensourcebackup.Prelude.{
  List, [], arith, none, refl, some, true, ℕ, ◌*◌, ◌+◌, ◌-◌, ◌<◌, ◌∷◌, ◌≤◌,
}
use opensourcebackup.Api.Http.{decoded, status_code}
use opensourcebackup.Api.Users.{
  AccountEnv, Accounts, handle_update_user_role, is_last_admin, require_role,
}
use opensourcebackup.Api.Users.LastAdmin.{
  AccountReach, AccountReach-HasAdmin, UserCall, call_delete_user, call_update_role, called,
  more_calls, no_calls, serve_users,
}
use opensourcebackup.Api.Users.AdminCount.{HasAdmin}
use opensourcebackup.Api.Users.Revocation.{Applied, Revoked, serve_users-Revoked}
use opensourcebackup.Auth.Sessions.{Session, revoke_by_user, role_from_context}
use opensourcebackup.Auth.Users.{
  User, count_by_role, get_user, is_valid_role, role_admin, role_at_least, role_viewer, update_role,
}
use opensourcebackup.Catalog.Models.{second}
use opensourcebackup.Prelude.Table.{find, update_where}
use opensourcebackup.Security.RateLimit.{LimiterEvent, limiter_request, limiter_tick, passed_count}
use opensourcebackup.Security.RateLimit.Bound.{passed_count-bound}

abbrev root : User
root = record {
  id = 1;
  email = "root@example.org";
  password_hash = "hash";
  role = role_admin;
  display_name = "Root";
  disabled_at = none;
  created_at = 1;
  updated_at = 1;
}

abbrev helper : User
helper = record root { id = 2; email = "helper@example.org" }

abbrev session_of : ℕ → User → Session
session_of token u = record {
  token = token;
  user_id = u.id;
  user_email = u.email;
  role = u.role;
  created_at = 5;
  ip = "";
}

abbrev accounts : Accounts
accounts = record {
  users = root ∷ helper ∷ [];
  sessions = session_of 71 root ∷ session_of 72 helper ∷ [];
  audit_log = [];
}

abbrev account_env : AccountEnv
account_env = record {
  now = 100;
  new_id = 3;
  new_token = some 73;
  counts = true;
  hash_password = λ p. some p;
  verify_password = λ p h. true;
  byte_length = λ p. 12;
  client_ip = "";
  email_text = λ e. e;
  created_text = λ e r. e;
  role_text = λ r. "role";
}

abbrev demote : ℕ → UserCall
demote id = call_update_role (some id) (decoded role_viewer)

abbrev demoted : Accounts
demoted = (serve_users account_env (some (session_of 71 root)) (demote 2) accounts).1

two_calls :
    AccountReach accounts
      (serve_users account_env (some (session_of 71 root)) (call_delete_user (some 1)) demoted).1
unfolding find serve_users handle_update_user_role require_role update_role update_where
    role_at_least role_from_context is_valid_role is_last_admin count_by_role get_user
    revoke_by_user
two_calls =
    more_calls
      (more_calls no_calls
        (called account_env (some (session_of 71 root)) (demote 2) accounts refl refl))
      (called account_env (some (session_of 71 root)) (call_delete_user (some 1)) demoted refl refl)

accounts-HasAdmin : HasAdmin accounts.users
unfolding find count_by_role
accounts-HasAdmin = ((refl, (refl, tt)), omega arith)

AccountReach-HasAdmin_example :
    HasAdmin
      (serve_users account_env
        (some (session_of 71 root))
        (call_delete_user (some 1))
        demoted).1.users
AccountReach-HasAdmin_example = AccountReach-HasAdmin two_calls accounts-HasAdmin

succeeded :
    status_code (serve_users account_env (some (session_of 71 root)) (demote 2) accounts).0 < 300
unfolding find serve_users handle_update_user_role require_role update_role update_where
    role_at_least role_from_context is_valid_role is_last_admin count_by_role get_user
succeeded = omega arith

serve_users-Revoked_example :
    let after = (serve_users account_env (some (session_of 71 root)) (demote 2) accounts).1 in
    Revoked 2 after.sessions × Applied 2 (demote 2) after.users
serve_users-Revoked_example =
    serve_users-Revoked account_env (some (session_of 71 root)) (demote 2) 2 accounts refl succeeded

-- The limiter of the login: five requests a minute, in twelve thousand million parts of a token.
abbrev token_parts : ℕ
token_parts = 12 * second

abbrev events : List LimiterEvent
events =
    limiter_request 7 second
    ∷ limiter_request 8 second
    ∷ limiter_tick (400 * second)
    ∷ limiter_request 7 (401 * second)
    ∷ []

passed_count-bound_example :
    token_parts * passed_count token_parts 1 (5 * token_parts) 7 events []
    ≤ 5 * token_parts + (500 * second - 0) * 1
passed_count-bound_example =
    passed_count-bound token_parts 1 (5 * token_parts) 7 events 0 (500 * second) [] tt (omega arith)
      (omega arith, (omega arith, (omega arith, (omega arith, omega arith))))
