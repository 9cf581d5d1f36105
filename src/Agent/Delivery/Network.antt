-- ===== src/Agent/Delivery/Network.antt =====
-- internal/agent/agent.go and client/client.go against internal/api/agent_jobs.go: the outbox of one
-- agent over a network that loses requests and answers.
pub mod Once
use opensourcebackup.Prelude.{Bool, List, Option, [], false, none, some, suc, true, zero, ℕ, ◌∷◌}
use opensourcebackup.Agent.Client.{ClientError, answered, put, transport_error}
use opensourcebackup.Agent.Delivery.{AgentStep, ControlPlane, step_drain}
use opensourcebackup.Api.AgentJobs.{Answer, JobReply}
use opensourcebackup.Api.AgentJobs.Ownership.{serve}
use opensourcebackup.Api.Http.{status_code}
use opensourcebackup.Api.Server.{Server, Surroundings}

-- What becomes of a call.
pub data Link : Type 0 where
  request_lost answer_lost arrives : Link

-- A call's way, and the clock and keys of the server at that time.
pub record Passage : Type 0 where
  pub link : Link
  pub surroundings : Surroundings

-- The control plane behind the network, with the fates of the calls to come; after them nothing
-- arrives any more.
pub record Network : Type 0 where
  pub server : Server
  pub passages : List Passage

-- The client's error for the server's answer; the body of the answer is not decoded.
abbrev pub client_result : Answer → Option ClientError
client_result (response, _) = put {A = JobReply} (answered (status_code response) none)

module _ (system_id : ℕ) where
  abbrev pub pass : Link → Answer → List Passage → Server → Option ClientError × Network
  pass request_lost a rest s = (some transport_error, record { server = s; passages = rest })
  pass answer_lost a rest s = (some transport_error, record { server = a.1; passages = rest })
  pass arrives a rest s = (client_result a, record { server = a.1; passages = rest })

  -- The call of the agent with the token of the system.
  unfoldable pub network_call : ControlPlane Network
  network_call call id n = elim n.passages [
    | [] ↦ (some transport_error, n)
    | p ∷ rest ↦
        pass p.link (serve p.surroundings call (some system_id) (some id) n.server) rest n.server
  ]

-- Drains that read the whole outbox and remove what they settle.
abbrev pub drains : ℕ → List AgentStep
drains zero = []
drains (suc n) = step_drain true (suc zero) true ∷ drains n

-- Some answer reaches the agent.
unfoldable pub answer_arrives : List Passage → Bool
answer_arrives [] = false
answer_arrives (p ∷ ps) = elim p.link [ arrives ↦ true | _ ↦ answer_arrives ps ]

-- The server's surroundings when the first request reaches it.
unfoldable pub first_served : Surroundings → List Passage → Surroundings
first_served env [] = env
first_served env (p ∷ ps) = elim p.link [ request_lost ↦ first_served env ps | _ ↦ p.surroundings ]
