-- ===== src/Api/Users/AdminCount.antt =====
-- internal/auth/users.go: what the statements on users do to the number of active admins, behind the
-- guards of internal/api/users.go.
use opensourcebackup.Prelude.{
  Bool, Bool-cases, Option-cases, String, any_where, ap, arith, bit, count_where, false, inl, inr,
  leb, none, refl, some, sym, true, ℕ, ◌&&◌, ◌+◌, ◌==◌, ◌∙◌, ◌≡◌, ◌≤◌, ◌⊎◌,
}
use opensourcebackup.Api.Users.{AccountEnv, Accounts, demotes_last, is_admin_user, is_last_admin}
use opensourcebackup.Auth.Users.{
  Role, User, Users, count_by_role, create_user, delete_user, found_user, get_user, has_email,
  is_active, is_admin, on_user, role_admin, role_operator, role_other, role_viewer, same_role,
  update_role, user_key,
}
use opensourcebackup.Prelude.Table.{
  Unique, append-Unique, count_where-append, count_where-delete_where, count_where-update_where,
  delete_where-Unique, delete_where-missing, find, update_where, update_where-Unique,
  update_where-missing,
}

abbrev pub HasAdmin : Users → Type 0
HasAdmin users = Unique user_key users × (1 ≤ count_by_role role_admin users)

abbrev active_admin : User → Bool
active_admin u = same_role u.role role_admin && is_active u

and_true : (b : Bool) → (b && true) ≡ b
and_true b = ground arith

abbrev set_role : Role → ℕ → User → User
set_role role now u = record u { role = role; updated_at = now }

update_role-always :
    (id : ℕ) (f : User → User) (users : Users)
    → update_where (λ u. (user_key u == id) && true) f users ≡ update_where (on_user id) f users
update_role-always id f users i = update_where (λ u. and_true (user_key u == id) i) f users

not_admin : (r : Role) → is_admin r ≡ false → same_role r role_admin ≡ false
not_admin role_admin e = absurd (ground arith)
not_admin role_operator e = refl
not_admin role_viewer e = refl
not_admin (role_other _) e = refl

not_counted : (u : User) → is_admin u.role ≡ false → bit (active_admin u) ≡ 0
not_counted u e = rw (not_admin u.role e) refl

-- A new role keeps the user counted, or is not the admin's.
role-counted :
    (role : Role) (now : ℕ) (u : User)
    → (bit (active_admin u) ≤ bit (active_admin (set_role role now u))) ⊎ (is_admin role ≡ false)
role-counted role_admin now u = inl (ground arith)
role-counted role_operator now u = inr refl
role-counted role_viewer now u = inr refl
role-counted (role_other _) now u = inr refl

module _ (env : AccountEnv) (s : Accounts) (counts : env.counts ≡ true) (h : HasAdmin s.users) where
  -- What the guard lets through.
  guard_open :
      (id : ℕ)
      → is_last_admin env id s.users ≡ false
      → (2 ≤ count_by_role role_admin s.users) ⊎ (is_admin_user (get_user id s.users) ≡ false)
  unfolding is_last_admin
  guard_open id e = elim (Bool-cases (leb (count_by_role role_admin s.users) 1)) [
    | inl few ↦ inr (ground (arith, e, few, counts))
    | inr many ↦ inl (ground (arith, many))
  ]

  -- The rest of the count, whatever the user was.
  others_remain :
      (id : ℕ) (u : User)
      → find user_key id s.users ≡ some u
      → is_last_admin env id s.users ≡ false
      → 1 + bit (active_admin u) ≤ count_by_role role_admin s.users
  unfolding count_by_role get_user
  others_remain id u there e = elim (guard_open id e) [
    | inl many ↦ ground (arith, many)
    | inr plain ↦
        let none_lost =
          not_counted u (ap (λ o. is_admin_user (found_user o)) (sym there) ∙ plain) in
        omega (arith, none_lost, h.1)
  ]

  pub role-HasAdmin :
      (id : ℕ) (role : Role)
      → demotes_last env id role s.users ≡ false
      → HasAdmin (update_role id role env.now s.users).1
  unfolding update_role count_by_role
  role-HasAdmin id role e = (
    update_where-Unique user_key (on_user id) (set_role role env.now) (λ _. refl) s.users h.0,
    elim (Option-cases (find user_key id s.users)) [
      | inl missing ↦
          rw
            (sym (update_role-always id (set_role role env.now) s.users)
              ∙ update_where-missing user_key id (λ _. true) (set_role role env.now) s.users
                  missing)
            h.1
      | inr (u, there) ↦
          let moved =
            ap (λ xs. count_where active_admin xs + bit (active_admin u))
              (sym (update_role-always id (set_role role env.now) s.users))
            ∙ count_where-update_where user_key active_admin (λ _. true) (set_role role env.now) id
                s.users {j = u} h.0 there in
          elim (role-counted role env.now u) [
            | inl counted ↦ omega (arith, moved, counted, h.1)
            | inr demoted ↦
                omega (arith, moved, others_remain id u there (ground (arith, e, demoted)))
          ]
    ],
  )

  pub delete-HasAdmin :
      (id : ℕ) → is_last_admin env id s.users ≡ false → HasAdmin (delete_user id s.users).1
  unfolding delete_user count_by_role
  delete-HasAdmin id e = (
    delete_where-Unique user_key (on_user id) s.users h.0,
    elim (Option-cases (find user_key id s.users)) [
      | inl missing ↦ rw (delete_where-missing user_key id s.users missing) h.1
      | inr (u, there) ↦ omega (
        arith,
        count_where-delete_where user_key active_admin id s.users {j = u} h.0 there,
        others_remain id u there e,
      )
    ],
  )

  pub create-HasAdmin :
      (email hash name : String) (role : Role)
      → find user_key env.new_id s.users ≡ none
      → HasAdmin (create_user env.new_id env.now email hash role name s.users).1
  unfolding create_user count_by_role
  create-HasAdmin email hash name role fresh_key =
      elim (Bool-cases (any_where (has_email email) s.users)) [
        | inl taken ↦ rw taken h
        | inr free ↦ rw free (
          append-Unique user_key s.users _ fresh_key h.0,
          omega (arith, h.1, count_where-append active_admin s.users _),
        )
      ]
