-- ===== src/Auth/Users.antt =====
-- internal/auth/users.go: roles, users and their table.
use opensourcebackup.Prelude.{
  Bool, List, Option, String, [], any_where, count_where, false, if◌then◌else◌, is_none, leb, ltb,
  none, order_by, some, str_eq, true, ℕ, ◌&&◌, ◌++◌, ◌==◌, ◌∷◌,
}
use opensourcebackup.Catalog.Models.{Result, err, ok}
use opensourcebackup.Prelude.Table.{delete_where, find, update_where}

-- Role is free text, of which three values are known.
pub data Role : Type 0 where
  role_admin role_operator role_viewer : Role
  role_other : String → Role

unfoldable pub is_valid_role : Role → Bool
is_valid_role (role_other _) = false
is_valid_role _ = true

abbrev pub is_admin : Role → Bool
is_admin role_admin = true
is_admin _ = false

abbrev pub rank : Role → ℕ
rank role_admin = 3
rank role_operator = 2
rank role_viewer = 1
rank (role_other _) = 0

unfoldable pub role_at_least : Role → Role → Bool
role_at_least r minimum = leb (rank minimum) (rank r)

pub record User : Type 0 where
  pub id : ℕ
  pub email : String
  pub password_hash : String
  pub role : Role
  pub display_name : String
  pub disabled_at : Option ℕ
  pub created_at : ℕ
  pub updated_at : ℕ

abbrev pub user_key : User → ℕ
user_key u = u.id

abbrev pub is_active : User → Bool
is_active u = is_none u.disabled_at

abbrev pub Users : Type 0
Users = List User

pub data UserError : Type 0 where
  user_not_found email_taken : UserError

abbrev pub has_email : String → User → Bool
has_email email u = str_eq u.email email

abbrev pub found_user : Option User → Result UserError User
found_user none = err user_not_found
found_user (some u) = ok u

-- The INSERT; an email address stands in one row at most.
unfoldable pub create_user :
    ℕ → ℕ → String → String → Role → String → Users → Result UserError User × Users
create_user new_id db_now email hash role name users =
    let row : User = record {
      id = new_id;
      email = email;
      password_hash = hash;
      role = role;
      display_name = name;
      disabled_at = none;
      created_at = db_now;
      updated_at = db_now;
    } in
    if any_where (has_email email) users
    then (err email_taken, users)
    else (ok row, users ++ row ∷ [])

unfoldable pub get_user : ℕ → Users → Result UserError User
get_user id users = found_user (find user_key id users)

abbrev first_with_email : String → Users → Option User
first_with_email email [] = none
first_with_email email (u ∷ us) = if has_email email u then some u else first_with_email email us

unfoldable pub get_user_by_email : String → Users → Result UserError User
get_user_by_email email users = found_user (first_with_email email users)

abbrev created_earlier : User → User → Bool
created_earlier y x = ltb y.created_at x.created_at

unfoldable pub list_users : Users → Users
list_users users = order_by created_earlier users

abbrev pub on_user : ℕ → User → Bool
on_user id u = user_key u == id

-- An UPDATE or DELETE of one row, and the check of the rows affected.
abbrev affected : ℕ → Users → Result UserError (Unit {0})
affected id users = if ltb 0 (count_where (on_user id) users) then ok tt else err user_not_found

unfoldable pub update_role : ℕ → Role → ℕ → Users → Result UserError (Unit {0}) × Users
update_role id role db_now users = (
  affected id users,
  update_where (on_user id) (λ u. record u { role = role; updated_at = db_now }) users,
)

unfoldable pub disable_user : ℕ → ℕ → Users → Result UserError (Unit {0}) × Users
disable_user id db_now users = (
  affected id users,
  update_where (on_user id) (λ u. record u { disabled_at = some db_now; updated_at = db_now })
      users,
)

unfoldable pub delete_user : ℕ → Users → Result UserError (Unit {0}) × Users
delete_user id users = (affected id users, delete_where (on_user id) users)

abbrev pub same_role : Role → Role → Bool
same_role role_admin role_admin = true
same_role role_operator role_operator = true
same_role role_viewer role_viewer = true
same_role (role_other a) (role_other b) = str_eq a b
same_role _ _ = false

unfoldable pub count_by_role : Role → Users → ℕ
count_by_role role users = count_where (λ u. same_role u.role role && is_active u) users
