-- ===== src/Api/Users/Revocation.antt =====
-- internal/api/users.go with internal/auth/rbac_session.go: what a change of a role and a deletion
-- leave of the user's sessions and row.
use opensourcebackup.Prelude.{arith}
use opensourcebackup.Prelude.Table.{found-count_where, find-update_where, find-key, find-deleted}
use opensourcebackup.Auth.Users.{User, user_key, on_user}
use opensourcebackup.Api.Users.{user_error_status}
use opensourcebackup.Prelude.{◌∙◌}
use opensourcebackup.Prelude.{
  Bool-cases, Option, arith, inl, inr, none, not, refl, some, subst, ℕ, ◌<◌, ◌≡◌, ◌≢◌, ◌≤◌,
}
use opensourcebackup.Api.Http.{
  Body, Flow, decoded, error, finish, finish-require_true, go, malformed, status_code, too_large,
  ◌>>◌,
}
use opensourcebackup.Api.Users.{
  AccountEnv, Accounts, UserAnswer, check_new_role, delete_checked, demotes_last,
  handle_delete_user, handle_update_user_role, is_last_admin, read_new_role, require_role,
  set_checked_role, write_deleted, write_role,
}
use opensourcebackup.Api.Users.LastAdmin.{
  UserCall, call_create_user, call_delete_user, call_login, call_update_role, serve_users,
}
use opensourcebackup.Auth.Sessions.{
  NotOf, Session, Sessions, find-revoke_by_user, get_session, is_expired, revoke_by_user,
  role_from_context, session_token, unless_expired,
}
use opensourcebackup.Auth.Users.{
  Role, UserError, Users, delete_user, is_valid_role, role_admin, role_at_least, update_role,
}
use opensourcebackup.Catalog.Models.{Result, err, ok}
use opensourcebackup.Prelude.Table.{find}

-- No token gives a session of the user, at any time.
abbrev pub Revoked : ℕ → Sessions → Type 0
Revoked id sessions = (now : ℕ) (token : Option ℕ) → NotOf id (get_session now token sessions).0

unless_expired-NotOf :
    (id now : ℕ) (o : Option Session) (sessions : Sessions)
    → ((x : Session) → o ≡ some x → x.user_id ≢ id)
    → NotOf id (unless_expired now o sessions).0
unless_expired-NotOf id now none sessions h = tt
unless_expired-NotOf id now (some x) sessions h = elim (Bool-cases (is_expired now x)) [
  | inl old ↦ rw old tt
  | inr valid ↦ rw valid (h x refl)
]

revoke_by_user-Revoked : (id : ℕ) (sessions : Sessions) → Revoked id (revoke_by_user id sessions)
unfolding get_session
revoke_by_user-Revoked id sessions now none = tt
revoke_by_user-Revoked id sessions now (some token) =
    unless_expired-NotOf id now (find session_token token (revoke_by_user id sessions))
      (revoke_by_user id sessions) (find-revoke_by_user id token sessions)

-- What a success does to the row of the user.
abbrev pub Applied : ℕ → UserCall → Users → Type 0
Applied id (call_update_role _ (decoded role)) users =
    (u : User) × (find user_key id users ≡ some u) × (u.role ≡ role)
Applied id (call_delete_user _) users = find user_key id users ≡ none
Applied id _ users = ⊥

-- A success leaves the user without sessions, and the row as the call wants it.
record Revokes (id : ℕ) (P : Users → Type 0) (a : UserAnswer) : Type 0 where
  revoked : status_code a.0 < 300 → Revoked id a.1.sessions
  applied : status_code a.0 < 300 → P a.1.users

update_role-applied :
    (id : ℕ) (role : Role) (now : ℕ) (users : Users)
    → (update_role id role now users).0 ≡ ok tt
    → (u : User) × (find user_key id (update_role id role now users).1 ≡ some u) × (u.role ≡ role)
unfolding update_role
update_role-applied id role now users said =
    let (u, there) = found-count_where user_key id users (ground (arith, said)) in
    (
      record u { role = role; updated_at = now },
      find-update_where user_key (on_user id) (λ x. record x { role = role; updated_at = now })
            (λ _. refl) id users
          ∙ rw there (ground (arith, find-key user_key id users {x = u} there)),
      refl,
    )

status_high : (e : UserError) → user_error_status e < 300 → ⊥
status_high e small = ground (arith, small)

module _ (env : AccountEnv) (id : ℕ) (s : Accounts) where
  refusal : (P : Users → Type 0) (c : ℕ) → 300 ≤ c → Revokes id P (error c, s)
  refusal P c big = record {
    revoked = λ small. absurd (omega (arith, big, small));
    applied = λ small. absurd (omega (arith, big, small));
  }

  role_written :
      (P : Users → Type 0) (role : Role) (o : Result UserError (Unit {0}) × Users)
      → (o.0 ≡ ok tt → P o.1)
      → Revokes id P (write_role env id role o s)
  role_written P role (ok _, users) row = record {
    revoked = λ _. revoke_by_user-Revoked id s.sessions;
    applied = λ _. row refl;
  }
  role_written P role (err e, users) row = record {
    revoked = λ small. absurd (status_high e small);
    applied = λ small. absurd (status_high e small);
  }

  deletion_written :
      (P : Users → Type 0) (o : Result UserError (Unit {0}) × Users)
      → P o.1
      → Revokes id P (write_deleted env id o (record s { sessions = revoke_by_user id s.sessions }))
  deletion_written P (ok _, users) row = record {
    revoked = λ _. revoke_by_user-Revoked id s.sessions;
    applied = λ _. row;
  }
  deletion_written P (err _, users) row = record {
    revoked = λ _. revoke_by_user-Revoked id s.sessions;
    applied = λ _. row;
  }

  behind_role :
      (P : Users → Type 0) (session : Option Session) (m : Flow UserAnswer UserAnswer)
      → Revokes id P (finish m)
      → Revokes id P (finish (require_role role_admin session s >> m))
  unfolding require_role
  behind_role P session m k =
      finish-require_true (Revokes id P) m (role_at_least (role_from_context session) role_admin)
        (error 403, s) (λ _. refusal P 403 (omega arith)) (λ _. k)

  role_checked :
      (P : Users → Type 0) (role : Role)
      → ((update_role id role env.now s.users).0 ≡ ok tt
          → P (update_role id role env.now s.users).1)
      → Revokes id P (finish (check_new_role env s id role))
  role_checked P role row =
      finish-require_true (Revokes id P) (set_checked_role env s id role) (is_valid_role role)
        (error 400, s) (λ _. refusal P 400 (omega arith))
        (λ _.
          finish-require_true (Revokes id P)
            (go (write_role env id role (update_role id role env.now s.users) s))
            (not (demotes_last env id role s.users)) (error 409, s)
            (λ _. refusal P 409 (omega arith))
            (λ _. role_written P role (update_role id role env.now s.users) row))

  role_read :
      (path_id : Option ℕ) (body : Body Role)
      → Revokes id
          (Applied id (call_update_role path_id body))
          (finish (read_new_role env s body id))
  role_read path_id (decoded role) =
      role_checked _ role (update_role-applied id role env.now s.users)
  role_read path_id too_large = refusal _ 413 (omega arith)
  role_read path_id malformed = refusal _ 400 (omega arith)

  deletion_checked :
      (path_id : Option ℕ)
      → Revokes id (Applied id (call_delete_user path_id)) (finish (delete_checked env s id))
  deletion_checked path_id =
      finish-require_true (Revokes id (Applied id (call_delete_user path_id)))
        (go (
          write_deleted env id (delete_user id s.users)
            (record s { sessions = revoke_by_user id s.sessions })))
        (not (is_last_admin env id s.users)) (error 409, s) (λ _. refusal _ 409 (omega arith))
        (λ _.
          deletion_written _ (delete_user id s.users)
            (unfold delete_user in find-deleted user_key id s.users))

-- The calls that change what a user may do.
abbrev pub Demotes : ℕ → UserCall → Type 0
Demotes id (call_update_role path_id _) = path_id ≡ some id
Demotes id (call_delete_user path_id) = path_id ≡ some id
Demotes id _ = ⊥

-- After a change of a user's role or the user's deletion that is answered with success, no token gives
-- a session of that user among the sessions that are left, at any time; and the user's row has the
-- role that was asked for, or is gone.
pub serve_users-Revoked :
    (env : AccountEnv) (session : Option Session) (call : UserCall) (id : ℕ) (s : Accounts)
    → Demotes id call
    → status_code (serve_users env session call s).0 < 300
    → Revoked id (serve_users env session call s).1.sessions
      × Applied id call (serve_users env session call s).1.users
unfolding serve_users handle_update_user_role handle_delete_user
serve_users-Revoked env session (call_create_user _) id s d good = absurd d
serve_users-Revoked env session (call_login _ _) id s d good = absurd d
serve_users-Revoked env session (call_update_role none body) id s d good = absurd (ground arith)
serve_users-Revoked env session (call_update_role (some k) body) id s d good =
    let same : k ≡ id = cc in
    subst
      (λ i.
        Revoked i (handle_update_user_role env session (some k) body s).1.sessions
        × Applied i (call_update_role (some k) body)
            (handle_update_user_role env session (some k) body s).1.users)
      same
      (let r =
          behind_role env k s _ session (read_new_role env s body k)
            (role_read env k s (some k) body) in
        (r.revoked good, r.applied good))
serve_users-Revoked env session (call_delete_user none) id s d good = absurd (ground arith)
serve_users-Revoked env session (call_delete_user (some k)) id s d good =
    let same : k ≡ id = cc in
    subst
      (λ i.
        Revoked i (handle_delete_user env session (some k) s).1.sessions
        × Applied i (call_delete_user (some k)) (handle_delete_user env session (some k) s).1.users)
      same
      (let r =
          behind_role env k s _ session (delete_checked env s k)
            (deletion_checked env k s (some k)) in
        (r.revoked good, r.applied good))
