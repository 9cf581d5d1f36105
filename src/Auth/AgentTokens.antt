-- ===== src/Auth/AgentTokens.antt =====
-- internal/auth/agent_token_store.go and internal/api/agent_auth.go: the bearer tokens of agents.
use opensourcebackup.Prelude.{
  Bool, List, Option, String, [], if◌then◌else◌, is_none, none, some, str_eq, ℕ, ◌&&◌, ◌++◌, ◌==◌,
  ◌∷◌,
}
use opensourcebackup.Prelude.Table.{update_where}

pub record AgentToken : Type 0 where
  pub id : ℕ
  pub system_id : ℕ
  pub token_hash : String
  pub last_used_at : Option ℕ
  pub revoked_at : Option ℕ
  pub created_at : ℕ

abbrev pub AgentTokens : Type 0
AgentTokens = List AgentToken

unfoldable pub create_agent_token : ℕ → ℕ → ℕ → String → AgentTokens → AgentTokens
create_agent_token new_id db_now owner hash tokens =
    tokens
    ++ record {
      id = new_id;
      system_id = owner;
      token_hash = hash;
      last_used_at = none;
      revoked_at = none;
      created_at = db_now;
    }
      ∷ []

-- WHERE token_hash = $1 AND revoked_at IS NULL.
abbrev pub is_live : String → AgentToken → Bool
is_live hash t = str_eq t.token_hash hash && is_none t.revoked_at

abbrev pub first_live : String → AgentTokens → Option ℕ
first_live hash [] = none
first_live hash (t ∷ ts) = if is_live hash t then some t.system_id else first_live hash ts

-- `none` is ErrInvalidToken.
unfoldable pub validate_and_touch : String → ℕ → AgentTokens → Option ℕ × AgentTokens
validate_and_touch hash db_now tokens = (
  first_live hash tokens,
  update_where (is_live hash) (λ t. record t { last_used_at = some db_now }) tokens,
)

unfoldable pub revoke_agent_token : ℕ → ℕ → AgentTokens → AgentTokens
revoke_agent_token id db_now tokens =
    update_where (λ t. t.id == id) (λ t. record t { revoked_at = some db_now }) tokens

-- The error that it returns, even where the statement succeeds, is not modelled.
unfoldable pub revoke_by_system_id : ℕ → ℕ → AgentTokens → AgentTokens
revoke_by_system_id owner db_now tokens =
    update_where (λ t. (t.system_id == owner) && is_none t.revoked_at)
      (λ t. record t { revoked_at = some db_now }) tokens

-- AgentAuth: the system that the handlers see, `none` for 401; `hash_token` is SHA-256 in hex.
unfoldable pub agent_auth :
    (String → String) → Option String → ℕ → AgentTokens → Option ℕ × AgentTokens
agent_auth hash_token none db_now tokens = (none, tokens)
agent_auth hash_token (some raw) db_now tokens =
    if str_eq raw "" then (none, tokens) else validate_and_touch (hash_token raw) db_now tokens
