-- ===== src/Scenarios/Safeguards.antt =====
-- The theorems on restore targets, enrollment tokens and stored policies.
use opensourcebackup.Catalog.Policies.{create_policy, get_policy_by_id, update_policy}
use opensourcebackup.Prelude.{Bool, List, [], false, none, refl, some, ℕ, ◌∷◌, ◌≡◌}
use opensourcebackup.Agent.Restic.Sandbox.{
  FilePath, Sandboxed, outside_root, validate_restore_path, validate_restore_path-Sandboxed,
}
use opensourcebackup.Auth.Enrollment.{
  EnrollmentToken, EnrollmentTokens, TokenError, check_token, consume,
}
use opensourcebackup.Auth.Enrollment.Once.{
  TokenOp, consume-once, op_consume, op_create, op_revoke, token_run,
}
use opensourcebackup.Catalog.Models.{BackupPolicy, err, ok}
use opensourcebackup.Catalog.Policies.Storage.{ReadsBack, create_policy-get_policy_by_id}
use opensourcebackup.Prelude.Table.{find}
use opensourcebackup.Scenarios.Data.{a_policy}

abbrev separator : ℕ
separator = 47

-- "/r", "/r/a" and "/ra" in bytes.
abbrev sandbox : FilePath
sandbox = 47 ∷ 114 ∷ []

abbrev inner : FilePath
inner = 47 ∷ 114 ∷ 47 ∷ 97 ∷ []

abbrev neighbour : FilePath
neighbour = 47 ∷ 114 ∷ 97 ∷ []

abbrev never_blank : FilePath → Bool
never_blank path = false

abbrev no_volume : FilePath → FilePath
no_volume path = []

neighbour_refused :
    validate_restore_path separator never_blank some no_volume neighbour sandbox ≡ err outside_root
unfolding validate_restore_path
neighbour_refused = refl

inner_accepted : validate_restore_path separator never_blank some no_volume inner sandbox ≡ ok tt
unfolding validate_restore_path
inner_accepted = refl

validate_restore_path-Sandboxed_example : Sandboxed separator some no_volume inner sandbox
validate_restore_path-Sandboxed_example =
    validate_restore_path-Sandboxed separator never_blank some no_volume inner sandbox
      inner_accepted

abbrev ticket : EnrollmentToken
ticket = record {
  id = 1;
  system_id = 10;
  token_hash = "hash";
  expires_at = 900;
  used_at = none;
  revoked_at = none;
  created_at = 1;
}

abbrev tickets : EnrollmentTokens
tickets = ticket ∷ []

abbrev meanwhile : List TokenOp
meanwhile = op_create 2 120 11 "other" 800 ∷ op_consume "other" 130 ∷ op_revoke 2 140 ∷ []

taken : (consume "hash" 100 tickets).0 ≡ ok (record ticket { used_at = some 100 })
unfolding consume check_token
taken = refl

consume-once_example :
    let after = token_run meanwhile (consume "hash" 100 tickets).1 in
    (e : TokenError) × (consume "hash" 200 after ≡ (err e, after))
consume-once_example =
    consume-once "hash" 100 200 meanwhile tickets (record ticket { used_at = some 100 }) taken

-- The policy that the update writes.
abbrev a_change : BackupPolicy
a_change = record a_policy { id = 21; schedule = some "0 2 * * *" }

create_policy-get_policy_by_id_example :
    let created = (create_policy 21 100 a_policy []).1 in
    ((q : BackupPolicy) × (get_policy_by_id 21 created ≡ ok q)
      × ReadsBack a_policy q
      × (q.created_at ≡ 100))
    × ((update_policy a_change created).0 ≡ ok tt)
    × ((q : BackupPolicy) × (get_policy_by_id 21 (update_policy a_change created).1 ≡ ok q)
        × ReadsBack a_change q
        × (q.created_at ≡ 100))
unfolding find
create_policy-get_policy_by_id_example =
    create_policy-get_policy_by_id 21 100 a_policy a_change [] refl refl
