-- ===== src/Auth/Enrollment/Once.antt =====
-- internal/auth/enrollment_store.go: what becomes of an enrollment token after Consume has returned it.
-- Consume is one step here; two of them at once are not modelled.
use mathlib.Core.Option
use opensourcebackup.Prelude.{
  ==_refl, Bool, Bool-cases, List, Option, String, [], arith, if◌then◌else◌, inl, inr, is_some,
  none, refl, some, true, ℕ, ◌++◌, ◌==◌, ◌∙◌, ◌∷◌, ◌≡◌,
}
use opensourcebackup.Auth.Enrollment.{
  EnrollmentToken, EnrollmentTokens, TokenError, check_token, consume, create_token,
  first_with_hash, mark_used, revoke_token, token_already_used, token_revoked,
}
use opensourcebackup.Catalog.Models.{Result, err, ok}
use opensourcebackup.Prelude.Table.{update_where}

-- The statements on enrollment tokens.
pub data TokenOp : Type 0 where
  op_create : ℕ → ℕ → ℕ → String → ℕ → TokenOp
  op_consume : String → ℕ → TokenOp
  op_revoke : ℕ → ℕ → TokenOp

unfoldable pub token_step : TokenOp → EnrollmentTokens → EnrollmentTokens
token_step (op_create new_id db_now owner hash expires) tokens =
    (create_token new_id db_now owner hash expires tokens).1
token_step (op_consume hash now) tokens = (consume hash now tokens).1
token_step (op_revoke id db_now) tokens = revoke_token id db_now tokens

unfoldable pub token_run : List TokenOp → EnrollmentTokens → EnrollmentTokens
token_run [] tokens = tokens
token_run (op ∷ ops) tokens = token_run ops (token_step op tokens)

-- The row of the hash was used.
record Spent (hash : String) (tokens : EnrollmentTokens) : Type 0 where
  row : EnrollmentToken
  there : first_with_hash hash tokens ≡ some row
  used : is_some row.used_at ≡ true

first_with_hash-update_where :
    (hash : String) (p : EnrollmentToken → Bool) (f : EnrollmentToken → EnrollmentToken)
    → ((t : EnrollmentToken) → (f t).token_hash ≡ t.token_hash)
    → (tokens : EnrollmentTokens)
    → first_with_hash hash (update_where p f tokens)
      ≡ Option.map (λ t. if p t then f t else t) (first_with_hash hash tokens)
unfolding update_where
first_with_hash-update_where hash p f k [] = refl
first_with_hash-update_where hash p f k (t ∷ ts) =
    ground (arith, k t, first_with_hash-update_where hash p f k ts)

first_with_hash-append :
    (hash : String) (tokens more : EnrollmentTokens) {t : EnrollmentToken}
    → first_with_hash hash tokens ≡ some t
    → first_with_hash hash (tokens ++ more) ≡ some t
first_with_hash-append hash [] more h = cc
first_with_hash-append hash (x ∷ tokens) more {t} h =
    ground (arith, first_with_hash-append hash tokens more {t = t})

-- An update that keeps hashes and uses keeps a row spent.
update_where-Spent :
    (hash : String) (p : EnrollmentToken → Bool) (f : EnrollmentToken → EnrollmentToken)
    → ((t : EnrollmentToken) → (f t).token_hash ≡ t.token_hash)
    → ((t : EnrollmentToken) → is_some t.used_at ≡ true → is_some (f t).used_at ≡ true)
    → (tokens : EnrollmentTokens) → Spent hash tokens
    → Spent hash (update_where p f tokens)
update_where-Spent hash p f k u tokens s = record {
  row = if p s.row then f s.row else s.row;
  there = first_with_hash-update_where hash p f k tokens ∙ rw s.there refl;
  used = ground (arith, s.used, u s.row);
}

mark_used-Spent :
    (hash : String) (now : ℕ) (r : Result TokenError EnrollmentToken) (tokens : EnrollmentTokens)
    → Spent hash tokens
    → Spent hash (mark_used now r tokens).1
mark_used-Spent hash now (err e) tokens s = s
mark_used-Spent hash now (ok t) tokens s =
    update_where-Spent hash (λ x. x.id == t.id) (λ x. record x { used_at = some now }) (λ _. refl)
      (λ _ _. refl) tokens s

token_step-Spent :
    (hash : String) (op : TokenOp) (tokens : EnrollmentTokens)
    → Spent hash tokens
    → Spent hash (token_step op tokens)
unfolding token_step create_token consume revoke_token
token_step-Spent hash (op_create new_id db_now owner h expires) tokens s = record {
  row = s.row;
  there = first_with_hash-append hash tokens _ s.there;
  used = s.used;
}
token_step-Spent hash (op_consume h now) tokens s =
    mark_used-Spent hash now (check_token now (first_with_hash h tokens)) tokens s
token_step-Spent hash (op_revoke id db_now) tokens s =
    update_where-Spent hash (λ x. x.id == id) (λ x. record x { revoked_at = some db_now })
      (λ _. refl) (λ _ h. h) tokens s

token_run-Spent :
    (hash : String) (ops : List TokenOp) (tokens : EnrollmentTokens)
    → Spent hash tokens
    → Spent hash (token_run ops tokens)
unfolding token_run
token_run-Spent hash [] tokens s = s
token_run-Spent hash (op ∷ ops) tokens s =
    token_run-Spent hash ops (token_step op tokens) (token_step-Spent hash op tokens s)

-- A row that was used is refused, and nothing is written.
Spent-refused :
    (hash : String) (now : ℕ) (tokens : EnrollmentTokens)
    → Spent hash tokens
    → (e : TokenError) × (consume hash now tokens ≡ (err e, tokens))
unfolding consume check_token
Spent-refused hash now tokens s = elim (Bool-cases (is_some s.row.revoked_at)) [
  | inl gone ↦ (token_revoked, rw (s.there, gone) refl)
  | inr held ↦ (token_already_used, rw (s.there, held, s.used) refl)
]

checked :
    (now : ℕ) (o : Option EnrollmentToken) (r : EnrollmentToken)
    → check_token now o ≡ ok r
    → o ≡ some r
unfolding check_token
checked now none r h = absurd (ground arith)
checked now (some t) r h = ground (arith, h)

marked-Spent :
    (hash : String) (now : ℕ) (o : Result TokenError EnrollmentToken) (tokens : EnrollmentTokens)
    (r : EnrollmentToken)
    → check_token now (first_with_hash hash tokens) ≡ o
    → (mark_used now o tokens).0 ≡ ok r
    → Spent hash (mark_used now o tokens).1
marked-Spent hash now (err e) tokens r c h = absurd (ground (arith, h))
marked-Spent hash now (ok t) tokens r c h = record {
  row = record t { used_at = some now };
  there =
      first_with_hash-update_where hash (λ x. x.id == t.id) (λ x. record x { used_at = some now })
        (λ _. refl) tokens
      ∙ rw (checked now (first_with_hash hash tokens) t c, ==_refl t.id) refl;
  used = refl;
}

consumed-Spent :
    (hash : String) (now : ℕ) (tokens : EnrollmentTokens) (r : EnrollmentToken)
    → (consume hash now tokens).0 ≡ ok r
    → Spent hash (consume hash now tokens).1
unfolding consume
consumed-Spent hash now tokens r h =
    marked-Spent hash now (check_token now (first_with_hash hash tokens)) tokens r refl h

-- An enrollment token that was consumed once is refused for ever: whatever tokens are created,
-- consumed or revoked afterwards, consuming it again returns an error and writes nothing.
pub consume-once :
    (hash : String) (now later : ℕ) (ops : List TokenOp) (tokens : EnrollmentTokens)
    (r : EnrollmentToken)
    → (consume hash now tokens).0 ≡ ok r
    → let after = token_run ops (consume hash now tokens).1 in
      (e : TokenError) × (consume hash later after ≡ (err e, after))
consume-once hash now later ops tokens r h =
    Spent-refused hash later (token_run ops (consume hash now tokens).1)
      (token_run-Spent hash ops (consume hash now tokens).1 (consumed-Spent hash now tokens r h))
