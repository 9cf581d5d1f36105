-- ===== src/Agent/Execution/Endings.antt =====
-- internal/agent/agent.go, executeJob: how a job that the agent takes up ends.
use opensourcebackup.Prelude.{
  Bool, Bool-cases, Option, String, false, inl, inr, none, refl, some, true, ◌∷◌, ◌≡◌,
}
use opensourcebackup.Agent.Client.{ClientError}
use opensourcebackup.Agent.Delivery.{
  Desk, deliver, deliver_directly, enqueued, report_terminal, try_deliver,
}
use opensourcebackup.Agent.Execution.{
  AgentConfig, BackupResult, BackupRun, ControlPlaneClient, Prepared, Runner, Workstation,
  cancel_seen, cancelled_event, complete_event, fail_event, prepared, unprepared,
}
use opensourcebackup.Agent.Execution.Backup.{
  backup_event, backup_options, ended_event, execute_job, execute_prepared, prepare, send_progress,
  started,
}
use opensourcebackup.Agent.Execution.Progress.{on_progress_all}
use opensourcebackup.Agent.Outbox.{Event, Outbox, enqueue}
use opensourcebackup.Api.AgentJobs.Ownership.{call_start}
use opensourcebackup.Catalog.Models.{BackupJob, BackupPolicy, Result, err, ok}
use opensourcebackup.Catalog.Repositories.{BackupRepository}

-- One delivery of the event was tried, or none of any event.
abbrev pub Reports : {S : Type 0} → Option Event → Desk S → Desk S → Type 0
Reports none d d' = (d'.answers ≡ d.answers) × (d'.outbox ≡ d.outbox)
Reports (some e) d d' = (answer : Option ClientError) × (d'.answers ≡ (e, answer) ∷ d.answers)

module _ {S : Type 0} (client : ControlPlaneClient S) (runner : Runner) (cfg : AgentConfig)
    (desk : Workstation) (j : BackupJob) where
  abbrev start_answer : S → Option ClientError
  start_answer s = (client.call call_start j.id s).0

  abbrev backup_of : BackupPolicy → BackupRepository → BackupRun
  backup_of p r = runner.backup (backup_options client runner cfg desk p r)

  -- What a job ends with, and why.
  pub data Ending (s : S) : Option Event → Type 0 where
    not_prepared :
        {reason : String}
        → prepare client runner cfg desk j s ≡ unprepared reason
        → Ending s (some (fail_event j.id reason))
    not_started :
        {p : BackupPolicy} {r : BackupRepository} {x : ClientError}
        → prepare client runner cfg desk j s ≡ prepared p r
        → start_answer s ≡ some x
        → Ending s none
    backed_up :
        {p : BackupPolicy} {r : BackupRepository} {b : BackupResult}
        → prepare client runner cfg desk j s ≡ prepared p r
        → start_answer s ≡ none
        → (backup_of p r).ended ≡ ok b
        → Ending s (some (complete_event j.id b p.includes))
    stopped :
        {p : BackupPolicy} {r : BackupRepository} {message : String}
        → prepare client runner cfg desk j s ≡ prepared p r
        → start_answer s ≡ none
        → (backup_of p r).ended ≡ err message
        → cancel_seen (backup_of p r).polls ≡ true
        → Ending s (some (cancelled_event j.id))
    broken :
        {p : BackupPolicy} {r : BackupRepository} {message : String}
        → prepare client runner cfg desk j s ≡ prepared p r
        → start_answer s ≡ none
        → (backup_of p r).ended ≡ err message
        → cancel_seen (backup_of p r).polls ≡ false
        → Ending s (some (fail_event j.id message))

  enqueued-Reports :
      (e : Event) (r : Bool × Outbox) (d : Desk S)
      → Reports (some e) d (enqueued client.call desk.removes e r d)
  unfolding try_deliver deliver_directly
  enqueued-Reports e (true, files) d = ((deliver client.call e d.remote).0, refl)
  enqueued-Reports e (false, files) d = ((deliver client.call e d.remote).0, refl)

  report_terminal-Reports :
      (has_outbox : Bool) (e : Event) (d : Desk S)
      → Reports
          (some e)
          d
          (report_terminal client.call has_outbox desk.fault desk.removes desk.now e d)
  unfolding report_terminal deliver_directly
  report_terminal-Reports true e d = enqueued-Reports e (enqueue desk.fault desk.now e d.outbox) d
  report_terminal-Reports false e d = ((deliver client.call e d.remote).0, refl)

  ended-Ending :
      (s : S) (p : BackupPolicy) (r : BackupRepository) (x : Result String BackupResult)
      → prepare client runner cfg desk j s ≡ prepared p r
      → start_answer s ≡ none
      → (backup_of p r).ended ≡ x
      → Ending s (some (ended_event client runner cfg desk j p (backup_of p r).polls x))
  ended-Ending s p r (ok b) read go_on done = backed_up read go_on done
  ended-Ending s p r (err message) read go_on done =
      elim (Bool-cases (cancel_seen (backup_of p r).polls)) [
        | inl seen ↦ rw seen (stopped read go_on done seen)
        | inr unseen ↦ rw unseen (broken read go_on done unseen)
      ]

  started-Ending :
      (p : BackupPolicy) (r : BackupRepository) (answer : Option ClientError) (s : S) (d : Desk S)
      → prepare client runner cfg desk j d.remote ≡ prepared p r
      → start_answer d.remote ≡ answer
      → (o : Option Event) × Ending d.remote o
        × Reports o d (started client runner cfg desk j p r (answer, s) d)
  unfolding backup_event
  started-Ending p r (some x) s d read refused = (none, not_started read refused, (refl, refl))
  started-Ending p r none s d read go_on =
      let run = backup_of p r in
      (
        some (backup_event client runner cfg desk j p run),
        ended-Ending d.remote p r run.ended read go_on refl,
        report_terminal-Reports desk.has_outbox (backup_event client runner cfg desk j p run)
            (record d {
              remote = send_progress client runner cfg desk j.id (on_progress_all run.updates) s;
            }),
      )

  prepared-Ending :
      (o : Prepared) (d : Desk S)
      → prepare client runner cfg desk j d.remote ≡ o
      → (e : Option Event) × Ending d.remote e
        × Reports e d (execute_prepared client runner cfg desk j o d)
  prepared-Ending (unprepared reason) d read = (
    some (fail_event j.id reason),
    not_prepared read,
    report_terminal-Reports desk.has_outbox (fail_event j.id reason) d,
  )
  prepared-Ending (prepared p r) d read =
      started-Ending p r (start_answer d.remote) (client.call call_start j.id d.remote).1 d read
        refl

  -- A job that the agent runs ends in one of five ways. Where the control plane does not grant the
  -- start, the agent reports nothing and leaves its outbox as it is. In the other four it tries
  -- exactly one delivery, of this job's event: a failure with the reason, where the policy or the
  -- repository cannot be read; a completion with restic's snapshot and bytes, only where the start
  -- was granted and restic succeeded; a cancellation, only where restic ended with an error after
  -- the watcher saw the operator's request; and a failure with restic's error otherwise.
  pub execute_job-Ending :
      (d : Desk S)
      → (e : Option Event) × Ending d.remote e
        × Reports e d (execute_job client runner cfg desk j d)
  unfolding execute_job
  execute_job-Ending d = prepared-Ending (prepare client runner cfg desk j d.remote) d refl
