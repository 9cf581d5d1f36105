-- ===== src/Agent/Client.antt =====
-- internal/agent/client/client.go: what the agent makes of the control plane's answers. Wrapping an
-- error with %w keeps what errors.Is finds in it, so a wrapped error is the error.
use opensourcebackup.Prelude.{
  Bool, List, Option, [], false, if◌then◌else◌, ltb, none, some, true, ℕ, ◌==◌, ◌∷◌,
}
use opensourcebackup.Catalog.Models.{RestoreTest, Result, err, ok}

-- What httpClient.Do brings back: nothing, or a status code with a body that decodes or not.
pub data HttpResult {ℓ} (A : Type ℓ) : Type ℓ where
  no_answer : HttpResult A
  answered : ℕ → Option A → HttpResult A

-- The error values of the package, catalog.ErrNotFound, and the errors that have no name.
pub data ClientError : Type 0 where
  err_unauthorized err_conflict err_not_found err_dispatch_deferred : ClientError
  catalog_err_not_found : ClientError
  unexpected_status : ℕ → ClientError
  transport_error decode_error unknown_event_kind : ClientError

-- The error of a status code that has one of its own; `accepts` tells the codes that are none.
unfoldable pub status_error : (ℕ → Bool) → ℕ → Option ClientError
status_error accepts code =
    if code == 401
    then some err_unauthorized
    else if code == 409
    then some err_conflict
    else if code == 404
    then some err_not_found
    else if code == 429
    then some err_dispatch_deferred
    else if accepts code
    then none
    else some (unexpected_status code)

abbrev decode {ℓ} : {A : Type ℓ} → Option ClientError → Option A → Result ClientError A
decode (some e) _ = err e
decode none (some a) = ok a
decode none none = err decode_error

unfoldable pub get {ℓ} : {A : Type ℓ} → HttpResult A → Result ClientError A
get no_answer = err transport_error
get (answered code body) = decode (status_error (λ c. c == 200) code) body

-- sendJSON without a result, as `put` calls it; `none` is a nil error.
unfoldable pub put {ℓ} : {A : Type ℓ} → HttpResult A → Option ClientError
put no_answer = some transport_error
put (answered code _) = status_error (λ c. ltb c 300) code

-- sendJSON with a result.
unfoldable pub post {ℓ} : {A : Type ℓ} → HttpResult A → Result ClientError A
post no_answer = err transport_error
post (answered code body) = decode (status_error (λ c. ltb c 300) code) body

abbrev first_test : Result ClientError (List RestoreTest) → Result ClientError RestoreTest
first_test (err e) = err e
first_test (ok []) = err catalog_err_not_found
first_test (ok (rt ∷ _)) = ok rt

unfoldable pub claim_next_restore_test :
    HttpResult (List RestoreTest) → Result ClientError RestoreTest
claim_next_restore_test answer = first_test (get answer)

unfoldable pub is_unauthorized : ClientError → Bool
is_unauthorized err_unauthorized = true
is_unauthorized _ = false

-- Retrying can never succeed.
unfoldable pub is_permanent : ClientError → Bool
is_permanent err_unauthorized = true
is_permanent err_conflict = true
is_permanent err_not_found = true
is_permanent _ = false
