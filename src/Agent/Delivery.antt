-- ===== src/Agent/Delivery.antt =====
-- internal/agent/agent.go: how the agent reports the end of a job. The control plane is what answers
-- a call, with a state of its own; the answers are kept in the order in which the agent logs them.
pub mod Stored
pub mod Kept
pub mod Network
use opensourcebackup.Prelude.{
  Bool, List, Option, String, [], false, if◌then◌else◌, none, some, suc, true, zero, ℕ, ◌∷◌,
}
use opensourcebackup.Agent.Client.{ClientError, is_permanent, unknown_event_kind}
use opensourcebackup.Agent.Outbox.{
  Event, Kind, Outbox, WriteFault, ack, enqueue, kind_cancelled, kind_complete, kind_fail,
  kind_other, list_events,
}
use opensourcebackup.Api.AgentJobs.{CompleteBody}
use opensourcebackup.Api.AgentJobs.Ownership.{AgentCall, call_cancelled, call_complete, call_fail}
use opensourcebackup.Api.Http.{decoded}
use opensourcebackup.Catalog.Models.{job_id}

-- A control plane: the answer to a call on a job, and its state after it.
abbrev pub ControlPlane : Type 0 → Type 0
ControlPlane S = AgentCall → ℕ → S → Option ClientError × S

-- The agent's side of the reports, and the control plane's state.
pub record Desk (S : Type 0) : Type 0 where
  pub remote : S
  pub outbox : Outbox
  pub answers : List (Event × Option ClientError)

abbrev pub complete_body : Event → CompleteBody
complete_body e = record {
  engine_snapshot_id = e.snapshot_id;
  bytes_uploaded = e.bytes;
  paths = e.paths;
}

-- The call of an event's kind; none for a kind that the agent does not know.
abbrev pub event_call : Kind → Event → Option AgentCall
event_call kind_complete e = some (call_complete (decoded (complete_body e)))
event_call kind_fail e = some (call_fail (decoded e.reason))
event_call kind_cancelled e = some call_cancelled
event_call (kind_other _) e = none

-- Delivery has succeeded or never will.
abbrev pub settles : Option ClientError → Bool
settles none = true
settles (some e) = is_permanent e

module _ {S : Type 0} (cp : ControlPlane S) where
  abbrev pub send : Option AgentCall → ℕ → S → Option ClientError × S
  send none id s = (some unknown_event_kind, s)
  send (some call) id s = cp call id s

  unfoldable pub deliver : Event → S → Option ClientError × S
  deliver e s = send (event_call e.kind e) e.job_id s

  abbrev pub settle : Bool → Event → Option ClientError × S → Desk S → Desk S
  settle removes e (answer, s) d = record {
    remote = s;
    outbox = if settles answer then ack removes e.job_id d.outbox else d.outbox;
    answers = (e, answer) ∷ d.answers;
  }

  -- `removes` is false where the file system refuses to remove the file; the error is ignored.
  unfoldable pub try_deliver : Bool → Event → Desk S → Desk S
  try_deliver removes e d = settle removes e (deliver e d.remote) d

  abbrev sent : Event → Option ClientError × S → Desk S → Desk S
  sent e (answer, s) d = record { remote = s; outbox = d.outbox; answers = (e, answer) ∷ d.answers }

  -- Delivery without a record in the outbox: an error is logged, and the report is lost.
  unfoldable pub deliver_directly : Event → Desk S → Desk S
  deliver_directly e d = sent e (deliver e d.remote) d

  abbrev pub enqueued : Bool → Event → Bool × Outbox → Desk S → Desk S
  enqueued removes e (true, files) d = try_deliver removes e (record d { outbox = files })
  enqueued removes e (false, files) d = deliver_directly e (record d { outbox = files })

  -- reportTerminal, with an outbox or without.
  unfoldable pub report_terminal : Bool → Option WriteFault → Bool → ℕ → Event → Desk S → Desk S
  report_terminal has_outbox fault removes now e d =
      if has_outbox
      then enqueued removes e (enqueue fault now e d.outbox) d
      else deliver_directly e d

  unfoldable pub do_fail : Bool → Option WriteFault → Bool → ℕ → ℕ → String → Desk S → Desk S
  do_fail has_outbox fault removes now id reason =
      report_terminal has_outbox fault removes now record {
        job_id = id;
        kind = kind_fail;
        snapshot_id = "";
        bytes = 0;
        paths = [];
        reason = reason;
        created_at = 0;
      }

  -- The loop over the listed events, of which the context ends before all but the first `n`.
  unfoldable pub try_each : ℕ → Bool → List Event → Desk S → Desk S
  try_each zero removes es d = d
  try_each (suc n) removes [] d = d
  try_each (suc n) removes (e ∷ es) d = try_each n removes es (try_deliver removes e d)

  abbrev pub drain_listed : ℕ → Bool → Option (List Event) → Desk S → Desk S
  drain_listed n removes none d = d
  drain_listed n removes (some es) d = try_each n removes es d

  -- One drain of drainOutbox.
  unfoldable pub drain : Bool → ℕ → Bool → Desk S → Desk S
  drain readable n removes d = drain_listed n removes (list_events readable d.outbox) d

-- What the agent does with its outbox, in the order in which it does it.
pub data AgentStep : Type 0 where
  step_report : Option WriteFault → Bool → ℕ → Event → AgentStep
  step_drain : Bool → ℕ → Bool → AgentStep

module _ {S : Type 0} (cp : ControlPlane S) where
  unfoldable pub agent_step : AgentStep → Desk S → Desk S
  agent_step (step_report fault removes now e) d = report_terminal cp true fault removes now e d
  agent_step (step_drain readable n removes) d = drain cp readable n removes d

  unfoldable pub agent_run : List AgentStep → Desk S → Desk S
  agent_run [] d = d
  agent_run (st ∷ sts) d = agent_run sts (agent_step st d)
