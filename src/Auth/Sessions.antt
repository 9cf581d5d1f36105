-- ===== src/Auth/Sessions.antt =====
-- internal/auth/rbac_session.go: the sessions of the dashboard. A token is a number, `none` the empty
-- text; the map from tokens to sessions is the list of its values.
use opensourcebackup.Prelude.{
  Bool, List, Option, String, [], arith, if◌then◌else◌, leb, none, some, ℕ, ◌*◌, ◌-◌, ◌==◌, ◌∷◌,
  ◌≡◌, ◌≢◌,
}
use opensourcebackup.Auth.Users.{Role, User, role_viewer}
use opensourcebackup.Catalog.Models.{Result, err, hour, ok}
use opensourcebackup.Prelude.Table.{delete_where, find}

pub record Session : Type 0 where
  pub token : ℕ
  pub user_id : ℕ
  pub user_email : String
  pub role : Role
  pub created_at : ℕ
  pub ip : String

abbrev pub session_token : Session → ℕ
session_token x = x.token

abbrev pub Sessions : Type 0
Sessions = List Session

pub data SessionError : Type 0 where
  invalid_credentials session_expired : SessionError

abbrev pub rbac_session_ttl : ℕ
rbac_session_ttl = 8 * hour

unfoldable pub is_expired : ℕ → Session → Bool
is_expired now x = leb rbac_session_ttl (now - x.created_at)

unfoldable pub revoke : ℕ → Sessions → Sessions
revoke token sessions = delete_where (λ x. session_token x == token) sessions

unfoldable pub create_session : ℕ → ℕ → User → String → Sessions → Sessions
create_session token now u ip sessions =
    record {
      token = token;
      user_id = u.id;
      user_email = u.email;
      role = u.role;
      created_at = now;
      ip = ip;
    }
    ∷ revoke token sessions

abbrev pub unless_expired : ℕ → Option Session → Sessions → Result SessionError Session × Sessions
unless_expired now none sessions = (err invalid_credentials, sessions)
unless_expired now (some x) sessions =
    if is_expired now x then (err session_expired, revoke x.token sessions) else (ok x, sessions)

-- An expired session is revoked when it is asked for.
unfoldable pub get_session : ℕ → Option ℕ → Sessions → Result SessionError Session × Sessions
get_session now none sessions = (err invalid_credentials, sessions)
get_session now (some token) sessions =
    unless_expired now (find session_token token sessions) sessions

unfoldable pub revoke_by_user : ℕ → Sessions → Sessions
revoke_by_user id sessions = delete_where (λ x. x.user_id == id) sessions

-- One tick of gc.
unfoldable pub collect_sessions : ℕ → Sessions → Sessions
collect_sessions now sessions = delete_where (is_expired now) sessions

-- Without a session the role is the viewer's.
unfoldable pub role_from_context : Option Session → Role
role_from_context none = role_viewer
role_from_context (some x) = x.role

-- A session that a lookup gives belongs to another user.
abbrev pub NotOf : ℕ → Result SessionError Session → Type 0
NotOf id (err _) = Unit
NotOf id (ok x) = x.user_id ≢ id

pub find-revoke_by_user :
    (id token : ℕ) (sessions : Sessions) (x : Session)
    → find session_token token (revoke_by_user id sessions) ≡ some x
    → x.user_id ≢ id
unfolding find delete_where revoke_by_user
find-revoke_by_user id token [] x h e = absurd (ground arith)
find-revoke_by_user id token (y ∷ ys) x h e =
    ground (arith, h, e, find-revoke_by_user id token ys x)
