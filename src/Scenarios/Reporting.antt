-- ===== src/Scenarios/Reporting.antt =====
-- The theorems on the reports of the agent of system 10, over a network that first loses them.
use opensourcebackup.Prelude.{List, [], arith, false, none, refl, some, true, ◌∷◌, ◌≡◌}
use opensourcebackup.Agent.Delivery.{
  AgentStep, Desk, agent_run, complete_body, step_drain, step_report,
}
use opensourcebackup.Agent.Delivery.Kept.{Kept, report_terminal-Kept}
use opensourcebackup.Agent.Delivery.Network.{
  Network, Passage, answer_arrives, answer_lost, arrives, drains, first_served, network_call,
  request_lost,
}
use opensourcebackup.Agent.Delivery.Network.Once.{Delivered, drain_once, waiting_at}
use opensourcebackup.Agent.Outbox.{Event, kind_complete, kind_fail, rename_fault, write_fault}
use opensourcebackup.Agent.Outbox.Contents.{
  OutboxCall, call_ack, call_enqueue, contents, map_run, outbox_run, outbox_run_refines,
}
use opensourcebackup.Api.AgentJobs.Ownership.{call_complete, serve}
use opensourcebackup.Api.Http.{decoded}
use opensourcebackup.Prelude.Table.{find}
use opensourcebackup.Scenarios.Data.{a_server, busy, some_jobs-Unique, surroundings}

abbrev done_event : Event
done_event = record {
  job_id = 2;
  kind = kind_complete;
  snapshot_id = "cc33";
  bytes = 700;
  paths = "/etc" ∷ [];
  reason = "";
  created_at = 1_900;
}

abbrev failed_event : Event
failed_event = record done_event { job_id = 3; kind = kind_fail; reason = "disk full" }

abbrev lossy : List Passage
lossy =
    record { link = request_lost; surroundings = surroundings }
    ∷ record { link = answer_lost; surroundings = surroundings }
    ∷ record { link = arrives; surroundings = record surroundings { now = 9_000 } }
    ∷ []

abbrev calls : List OutboxCall
calls =
    call_enqueue none 1_000 done_event
    ∷ call_enqueue (some rename_fault) 1_001 failed_event
    ∷ call_enqueue none 1_002 failed_event
    ∷ call_ack false 2
    ∷ call_ack true 3
    ∷ []

outbox_run_refines_example : contents (outbox_run calls []) 2 ≡ map_run calls (contents []) 2
outbox_run_refines_example = outbox_run_refines calls [] 2

abbrev quiet_desk : Desk Network
quiet_desk = record {
  remote = record { server = a_server; passages = lossy };
  outbox = [];
  answers = [];
}

abbrev later_steps : List AgentStep
later_steps =
    step_drain true 5 true
    ∷ step_report (some write_fault) true 2_100 failed_event
    ∷ step_drain false 5 true
    ∷ step_drain true 0 false
    ∷ []

report_terminal-Kept_example :
    Kept (network_call 10) 2 done_event (
      agent_run (network_call 10) (step_report none true 2_000 done_event ∷ later_steps) quiet_desk)
report_terminal-Kept_example =
    report_terminal-Kept (network_call 10) true 2_000 done_event later_steps quiet_desk (tt, tt)
      (tt, (λ e. ground (arith, e), (tt, (tt, tt))))

served_once : answer_arrives lossy ≡ true
unfolding answer_arrives
served_once = refl

drain_once_example :
    Delivered
      (serve
        (first_served surroundings lossy)
        (call_complete (decoded (complete_body done_event)))
        (some 10)
        (some 2)
        a_server).1
      (agent_run (network_call 10) (drains 3) (waiting_at done_event a_server lossy []))
unfolding find
drain_once_example =
    drain_once done_event a_server busy surroundings lossy refl some_jobs-Unique refl refl
      served_once
