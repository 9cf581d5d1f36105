-- ===== src/Auth/Enrollment.antt =====
-- internal/auth/enrollment_store.go: one-time tokens. A row is found by the hash of its token; the
-- SELECT and the UPDATE of Consume are two statements, modelled one after the other.
pub mod Once
use opensourcebackup.Prelude.{
  List, Option, String, [], if◌then◌else◌, is_some, ltb, none, some, str_eq, ℕ, ◌++◌, ◌==◌, ◌∷◌,
}
use opensourcebackup.Catalog.Models.{Result, err, ok}
use opensourcebackup.Prelude.Table.{update_where}

pub record EnrollmentToken : Type 0 where
  pub id : ℕ
  pub system_id : ℕ
  pub token_hash : String
  pub expires_at : ℕ
  pub used_at : Option ℕ
  pub revoked_at : Option ℕ
  pub created_at : ℕ

pub data TokenError : Type 0 where
  invalid_token token_already_used token_revoked : TokenError

abbrev pub EnrollmentTokens : Type 0
EnrollmentTokens = List EnrollmentToken

unfoldable pub create_token :
    ℕ → ℕ → ℕ → String → ℕ → EnrollmentTokens → EnrollmentToken × EnrollmentTokens
create_token new_id db_now owner hash expires tokens =
    let row : EnrollmentToken = record {
      id = new_id;
      system_id = owner;
      token_hash = hash;
      expires_at = expires;
      used_at = none;
      revoked_at = none;
      created_at = db_now;
    } in
    (row, tokens ++ row ∷ [])

abbrev pub first_with_hash : String → EnrollmentTokens → Option EnrollmentToken
first_with_hash hash [] = none
first_with_hash hash (t ∷ ts) = if str_eq t.token_hash hash then some t else first_with_hash hash ts

-- The checks of Consume on the row that it read.
unfoldable pub check_token : ℕ → Option EnrollmentToken → Result TokenError EnrollmentToken
check_token now none = err invalid_token
check_token now (some t) =
    if is_some t.revoked_at
    then err token_revoked
    else if is_some t.used_at
    then err token_already_used
    else if ltb t.expires_at now
    then err invalid_token
    else ok t

abbrev pub mark_used :
    ℕ
    → Result TokenError EnrollmentToken
    → EnrollmentTokens
    → Result TokenError EnrollmentToken × EnrollmentTokens
mark_used now (err e) tokens = (err e, tokens)
mark_used now (ok t) tokens = (
  ok (record t { used_at = some now }),
  update_where (λ x. x.id == t.id) (λ x. record x { used_at = some now }) tokens,
)

unfoldable pub consume :
    String → ℕ → EnrollmentTokens → Result TokenError EnrollmentToken × EnrollmentTokens
consume hash now tokens = mark_used now (check_token now (first_with_hash hash tokens)) tokens

unfoldable pub revoke_token : ℕ → ℕ → EnrollmentTokens → EnrollmentTokens
revoke_token id db_now tokens =
    update_where (λ x. x.id == id) (λ x. record x { revoked_at = some db_now }) tokens
