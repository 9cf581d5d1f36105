-- ===== src/Api/Enrollment.antt =====
-- internal/api/enrollment.go: how a system gets its agent token.
use opensourcebackup.Audit
use opensourcebackup.Prelude.{List, Option, String, not, str_eq, ℕ, ◌*◌, ◌+◌}
use opensourcebackup.Api.Http.{
  Body, Flow, Response, error, finish, go, reply, require, require_body, require_true, stop, ◌>>=◌,
  ◌>>◌,
}
use opensourcebackup.Audit.{
  agent_enrolled, as_failed, enrollment_token_created, from_ip, resource_agent, with_details,
  with_severity, with_user_agent,
}
use opensourcebackup.Auth.AgentTokens.{AgentTokens, create_agent_token}
use opensourcebackup.Auth.Enrollment.{
  EnrollmentToken, EnrollmentTokens, TokenError, consume, create_token,
}
use opensourcebackup.Catalog.Models.{Result, err, minute, ok}

pub record EnrollmentState : Type 0 where
  pub enrollment_tokens : EnrollmentTokens
  pub agent_tokens : AgentTokens
  pub audit_log : List Audit.Entry

-- The clock, the tokens that GenerateToken makes and `none` where it fails, the keys of the database,
-- the hash of a token, and the address of the client.
pub record EnrollmentEnv : Type 0 where
  pub now : ℕ
  pub new_id : ℕ
  pub generated : Option String
  pub hash_token : String → String
  pub client_ip : String
  pub agent : String

abbrev enrollment_token_ttl : ℕ
enrollment_token_ttl = 30 * minute

pub data EnrollmentReply : Type 0 where
  issued : String → ℕ → EnrollmentReply

abbrev pub EnrollmentAnswer : Type 0
EnrollmentAnswer = Response EnrollmentReply × EnrollmentState

module _ (env : EnrollmentEnv) where
  abbrev log_agent : (Audit.Entry → Audit.Entry) → Audit.Entry → EnrollmentState → EnrollmentState
  log_agent f e s = record s {
    audit_log = Audit.append env.now (f (from_ip env.client_ip e)) s.audit_log;
  }

  abbrev issue_enrollment : EnrollmentState → ℕ → String → Flow EnrollmentAnswer EnrollmentAnswer
  issue_enrollment s owner raw = go (
    reply 201 (issued raw owner),
    log_agent (λ e. with_details "ttl=30m" (with_user_agent env.agent e))
        (Audit.by Audit.admin (Audit.event enrollment_token_created resource_agent owner))
        (record s {
          enrollment_tokens =
              (create_token env.new_id env.now owner (env.hash_token raw)
                (env.now + enrollment_token_ttl) s.enrollment_tokens).1;
        }),
  )

  unfoldable pub create_enrollment_token : Option ℕ → EnrollmentState → EnrollmentAnswer
  create_enrollment_token path_id s = finish (
      require path_id (error 400, s) >>= λ owner.
      require env.generated (error 500, s) >>= issue_enrollment s owner)

  abbrev issue_agent :
      EnrollmentToken → EnrollmentState → String → Flow EnrollmentAnswer EnrollmentAnswer
  issue_agent t s raw = go (
    reply 201 (issued raw t.system_id),
    log_agent (with_details "agent successfully enrolled")
        (Audit.by Audit.agent (Audit.event agent_enrolled resource_agent t.system_id))
        (record s {
          agent_tokens =
              create_agent_token env.new_id env.now t.system_id (env.hash_token raw) s.agent_tokens;
        }),
  )

  -- Whatever the reason is, a refusal is answered with 401 and logged as a warning.
  abbrev enroll_checked :
      Result TokenError EnrollmentToken × EnrollmentTokens
      → EnrollmentState
      → Flow EnrollmentAnswer EnrollmentAnswer
  enroll_checked (err e, tokens) s = stop (
    error 401,
    log_agent
        (λ x. as_failed (
          with_details "enrollment failed: invalid or expired token"
            (with_severity Audit.warning x)))
        (Audit.by Audit.agent (Audit.event agent_enrolled resource_agent 0))
        (record s { enrollment_tokens = tokens }),
  )
  enroll_checked (ok t, tokens) s =
      let s' = record s { enrollment_tokens = tokens } in
      require env.generated (error 500, s') >>= issue_agent t s'

  abbrev enroll_with : EnrollmentState → String → Flow EnrollmentAnswer EnrollmentAnswer
  enroll_with s raw =
      require_true (not (str_eq raw "")) (error 400, s)
      >> enroll_checked (consume (env.hash_token raw) env.now s.enrollment_tokens) s

  unfoldable pub enroll_agent : Body String → EnrollmentState → EnrollmentAnswer
  enroll_agent body s = finish (require_body body (λ c. (error c, s)) >>= enroll_with s)
