-- ===== src/Agent/Delivery/Network/Once.antt =====
-- internal/agent/agent.go against internal/api/agent_jobs.go: what a completion that is sent several
-- times does.
use opensourcebackup.Prelude.{
  ==_refl, List, Option, [], ap, arith, length, none, refl, some, subst, suc, sym, true, zero, ℕ,
  ◌∙◌, ◌∷◌, ◌≡◌,
}
use opensourcebackup.Agent.Client.{
  ClientError, answered, is_permanent, put, status_error, transport_error,
}
use opensourcebackup.Agent.Delivery.{
  Desk, agent_run, agent_step, complete_body, deliver, drain, event_call, settle, settles,
  try_deliver, try_each,
}
use opensourcebackup.Agent.Delivery.Network.{
  Link, Network, Passage, answer_arrives, answer_lost, arrives, client_result, drains, first_served,
  network_call, pass, request_lost,
}
use opensourcebackup.Agent.Outbox.{Event, ack, kind_complete, list_events, read_events}
use opensourcebackup.Api.AgentJobs.{Answer, JobReply}
use opensourcebackup.Api.AgentJobs.Ownership.{AgentCall, call_complete, serve}
use opensourcebackup.Api.AgentJobs.Reports.{serve-Completed, serve-Unique, serve-late}
use opensourcebackup.Api.Http.{decoded, error, status_code}
use opensourcebackup.Api.Server.{Server, Surroundings}
use opensourcebackup.Catalog.Jobs.Rows.{set_full, set_success}
use opensourcebackup.Catalog.Jobs.Transitions.{complete}
use opensourcebackup.Catalog.Models.{BackupJob, job_id, running}
use opensourcebackup.Prelude.Table.{Unique, delete_where, find, find-key}

-- The outbox is empty, and the server stands as given.
abbrev pub Delivered : Server → Desk Network → Type 0
Delivered s d = (d.outbox ≡ []) × (d.remote.server ≡ s)

-- One report waits.
abbrev pub waiting_at :
    Event → Server → List Passage → List (Event × Option ClientError) → Desk Network
waiting_at e s ps log = record {
  remote = record { server = s; passages = ps };
  outbox = record { name = e.job_id; content = some e } ∷ [];
  answers = log;
}

module _ (system_id : ℕ) (e : Event) (call : AgentCall) (h : event_call e.kind e ≡ some call) where
  abbrev served : Surroundings → Server → Answer
  served env s = serve env call (some system_id) (some e.job_id) s

  one_drain :
      (p : Passage) (rest : List Passage) (s : Server) (log : List (Event × Option ClientError))
      → drain (network_call system_id) true (suc zero) true (waiting_at e s (p ∷ rest) log)
        ≡ settle
            (network_call system_id)
            true
            e
            (pass system_id p.link (served p.surroundings s) rest s)
            (waiting_at e s (p ∷ rest) log)
  unfolding drain list_events read_events try_each try_deliver deliver network_call
  one_drain p rest s log = rw h refl

  -- With an empty outbox nothing is sent.
  idle-Delivered :
      (n : ℕ) (s : Server) (d : Desk Network)
      → Delivered s d
      → Delivered s (agent_run (network_call system_id) (drains n) d)
  unfolding agent_run agent_step drain list_events read_events try_each
  idle-Delivered zero s d w = w
  idle-Delivered (suc n) s d w =
      idle-Delivered n s (drain (network_call system_id) true (suc zero) true d)
        (rw w.0 (refl, w.1))

  abbrev after_pass :
      Link
      → Answer
      → List Passage
      → Server
      → List Passage
      → List (Event × Option ClientError)
      → Desk Network
  after_pass l a rest s ps log =
      settle (network_call system_id) true e (pass system_id l a rest s) (waiting_at e s ps log)

  -- What settles the report is removed, and all else waits for the next drain.
  settled_pass :
      (a : Answer) (rest : List Passage) (s : Server) (ps : List Passage)
      (log : List (Event × Option ClientError))
      → settles (client_result a) ≡ true
      → Delivered a.1 (after_pass arrives a rest s ps log)
  unfolding ack delete_where
  settled_pass a rest s ps log ok = (rw (ok, ==_refl e.job_id) refl, refl)

  lost_request :
      (a : Answer) (rest : List Passage) (s : Server) (ps : List Passage)
      (log : List (Event × Option ClientError))
      → after_pass request_lost a rest s ps log
        ≡ waiting_at e s rest ((e, some transport_error) ∷ log)
  unfolding is_permanent
  lost_request a rest s ps log = refl

  lost_answer :
      (a : Answer) (rest : List Passage) (s : Server) (ps : List Passage)
      (log : List (Event × Option ClientError))
      → after_pass answer_lost a rest s ps log
        ≡ waiting_at e a.1 rest ((e, some transport_error) ∷ log)
  unfolding is_permanent
  lost_answer a rest s ps log = refl

  abbrev drained : List Passage → Desk Network → Desk Network
  drained ps d = agent_run (network_call system_id) (drains (length ps)) d

  -- Once the server refuses the report for good, it stays as it is.
  module _ (s : Server) (late : (env : Surroundings) → served env s ≡ (error 409, s)) where
    late_step :
        (l : Link) (env : Surroundings) (rest ps : List Passage)
        (log : List (Event × Option ClientError))
        → ((more : List (Event × Option ClientError))
            → answer_arrives rest ≡ true
            → Delivered s (drained rest (waiting_at e s rest more)))
        → answer_arrives (record { link = l; surroundings = env } ∷ rest) ≡ true
        → Delivered s (drained rest (after_pass l (served env s) rest s ps log))
    unfolding answer_arrives is_permanent put status_error
    late_step request_lost env rest ps log ih any = ih ((e, some transport_error) ∷ log) any
    late_step answer_lost env rest ps log ih any =
        rw (late env) (ih ((e, some transport_error) ∷ log) any)
    late_step arrives env rest ps log ih any = rw (late env) (
        idle-Delivered (length rest) s (after_pass arrives (error 409, s) rest s ps log)
          (settled_pass (error 409, s) rest s ps log refl))

    late-Delivered :
        (ps : List Passage) (log : List (Event × Option ClientError))
        → answer_arrives ps ≡ true
        → Delivered s (drained ps (waiting_at e s ps log))
    unfolding agent_run agent_step answer_arrives
    late-Delivered [] log any = absurd (ground arith)
    late-Delivered (p ∷ rest) log any =
        subst (λ d. Delivered s (drained rest d)) (sym (one_drain p rest s log))
          (late_step p.link p.surroundings rest (p ∷ rest) log (late-Delivered rest) any)

  module _ (s : Server)
      (good : (env : Surroundings) → settles (client_result (served env s)) ≡ true)
      (once : (env env' : Surroundings)
        → served env' (served env s).1 ≡ (error 409, (served env s).1)) where
    first_step :
        (l : Link) (env env' : Surroundings) (rest ps : List Passage)
        (log : List (Event × Option ClientError))
        → ((more : List (Event × Option ClientError))
            → answer_arrives rest ≡ true
            → Delivered
                (served (first_served env' rest) s).1
                (drained rest (waiting_at e s rest more)))
        → answer_arrives (record { link = l; surroundings = env } ∷ rest) ≡ true
        → Delivered
            (served (first_served env' (record { link = l; surroundings = env } ∷ rest)) s).1
            (drained rest (after_pass l (served env s) rest s ps log))
    unfolding answer_arrives first_served is_permanent
    first_step request_lost env env' rest ps log ih any = ih ((e, some transport_error) ∷ log) any
    first_step answer_lost env env' rest ps log ih any =
        late-Delivered (served env s).1 (once env) rest ((e, some transport_error) ∷ log) any
    first_step arrives env env' rest ps log ih any =
        idle-Delivered (length rest) (served env s).1
          (after_pass arrives (served env s) rest s ps log)
          (settled_pass (served env s) rest s ps log (good env))

    first-Delivered :
        (env' : Surroundings) (ps : List Passage) (log : List (Event × Option ClientError))
        → answer_arrives ps ≡ true
        → Delivered (served (first_served env' ps) s).1 (drained ps (waiting_at e s ps log))
    unfolding agent_run agent_step answer_arrives
    first-Delivered env' [] log any = absurd (ground arith)
    first-Delivered env' (p ∷ rest) log any =
        subst (λ d. Delivered (served (first_served env' (p ∷ rest)) s).1 (drained rest d))
          (sym (one_drain p rest s log))
          (first_step p.link p.surroundings env' rest (p ∷ rest) log (first-Delivered env' rest)
            any)

-- Completing a running job succeeds once.
module _ (e : Event) (s : Server) (j : BackupJob) (u : Unique job_id s.catalog.jobs)
    (there : find job_id e.job_id s.catalog.jobs ≡ some j) (runs : j.status ≡ running) where
  abbrev pub completion : AgentCall
  completion = call_complete (decoded (complete_body e))

  abbrev completed_at : Surroundings → Answer
  completed_at env = serve env completion (some j.system_id) (some e.job_id) s

  completion-taken : (env : Surroundings) → settles (client_result (completed_at env)) ≡ true
  unfolding put status_error
  completion-taken env =
      ap (λ r. settles (put {A = JobReply} (answered (status_code r) none)))
        (serve-Completed env s e.job_id j u there (complete_body e) runs).0

  completion-late :
      (env env' : Surroundings)
      → serve env' completion (some j.system_id) (some e.job_id) (completed_at env).1
        ≡ (error 409, (completed_at env).1)
  unfolding set_full set_success
  completion-late env env' =
      serve-late env' (completed_at env).1 e.job_id
        (set_full env.now (set_success e.bytes env.now j))
        (serve-Unique env s e.job_id j u there (complete_body e) runs)
        (ap (λ k. find job_id k (completed_at env).1.catalog.jobs)
            (sym (find-key job_id e.job_id s.catalog.jobs there))
          ∙ (serve-Completed env s e.job_id j u there (complete_body e) runs).1)
        completion (complete e.bytes) refl refl

-- Where job keys are distinct and an agent's outbox holds just the completion of a running job of
-- its system: let each drain send the report once, and let the network lose requests and answers
-- as it will. When an answer has reached the agent, the outbox is empty, and the server stands as
-- after serving the report once, at the time when the first request reached it: no retry has
-- changed the job or registered another snapshot.
pub drain_once :
    (e : Event) (s : Server) (j : BackupJob) (env : Surroundings) (ps : List Passage)
    → e.kind ≡ kind_complete
    → Unique job_id s.catalog.jobs
    → find job_id e.job_id s.catalog.jobs ≡ some j
    → j.status ≡ running
    → answer_arrives ps ≡ true
    → let report = call_complete (decoded (complete_body e)) in
      Delivered
        (serve (first_served env ps) report (some j.system_id) (some e.job_id) s).1
        (agent_run (network_call j.system_id) (drains (length ps)) (waiting_at e s ps []))
drain_once e s j env ps k u there runs any =
    first-Delivered j.system_id e (call_complete (decoded (complete_body e))) (rw k refl) s
      (completion-taken e s j u there runs) (completion-late e s j u there runs) env ps [] any
