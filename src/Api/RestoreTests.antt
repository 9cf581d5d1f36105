-- ===== src/Api/RestoreTests.antt =====
-- internal/api/agent_restore_tests.go: the handlers with which agents claim and end restore tests.
use opensourcebackup.Catalog.RestoreTests
use opensourcebackup.Prelude.{List, Option, String, [], none, some, ℕ, ◌==◌, ◌∷◌}
use opensourcebackup.Api.Http.{
  Flow, Request, Response, error, finish, go, http_status_for_error, reply, require, require_body,
  require_ok, require_true, ◌>>=◌, ◌>>◌,
}
use opensourcebackup.Api.Server.{Server, Surroundings}
use opensourcebackup.Catalog.Models.{RestoreTest, Result, StoreError, err, failed, ok, success}

pub record VerifiedBody : Type 0 where
  pub verified_files : ℕ
  pub verified_bytes : ℕ

abbrev pub TestAnswer : Type 0
TestAnswer = Response (List RestoreTest) × Server

abbrev pub test_refuse : Server → StoreError → TestAnswer
test_refuse s e = (error (http_status_for_error e), s)

abbrev pub with_tests : List RestoreTest → Server → Server
with_tests tests s = record s { restore_tests = tests }

abbrev pub claim_reply : Server → Result StoreError RestoreTest × List RestoreTest → TestAnswer
claim_reply s (ok rt, tests) = (reply 200 (rt ∷ []), with_tests tests s)
claim_reply s (err _, tests) = (reply 200 [], with_tests tests s)

unfoldable pub list_agent_restore_tests : Surroundings → Option ℕ → Server → TestAnswer
list_agent_restore_tests env none s = (error 401, s)
list_agent_restore_tests env (some system_id) s =
    claim_reply s (RestoreTests.claim_next_pending system_id env.now s.restore_tests)

-- The start of both reports: the test of the path, of the caller.
unfoldable pub claim_test {ℓ} : {B : Type ℓ} → Request B → Server → Flow TestAnswer RestoreTest
claim_test r s = do
  test_id ← require r.path_id (error 400, s)
  system_id ← require r.system (error 401, s)
  rt ← require_ok (RestoreTests.get_by_id test_id s.restore_tests) (test_refuse s)
  require_true (rt.system_id == system_id) (error 404, s)
  go rt

-- Update writes its time into the test, which is the answer.
abbrev pub write_updated :
    RestoreTest → ℕ → Result StoreError (Unit {0}) × List RestoreTest → Server → TestAnswer
write_updated rt now (ok _, tests) s =
    (reply 200 (record rt { updated_at = now } ∷ []), with_tests tests s)
write_updated rt now (err e, tests) s = test_refuse (with_tests tests s) e

module _ (env : Surroundings) where
  unfoldable pub complete_agent_restore_test : Request VerifiedBody → Server → TestAnswer
  complete_agent_restore_test r s = finish do
    rt ← claim_test r s
    b ← require_body r.body (λ c. (error c, s))
    let rt' : RestoreTest = record rt {
      status = success;
      verified_files = some b.verified_files;
      verified_bytes = some b.verified_bytes;
    }
    go (write_updated rt' env.now (RestoreTests.update rt' env.now s.restore_tests) s)

  unfoldable pub fail_agent_restore_test : Request String → Server → TestAnswer
  fail_agent_restore_test r s = finish do
    rt ← claim_test r s
    summary ← require_body r.body (λ c. (error c, s))
    let rt' : RestoreTest = record rt { status = failed; error_summary = some summary }
    go (write_updated rt' env.now (RestoreTests.update rt' env.now s.restore_tests) s)
