-- ===== src/Agent/Execution/Poll.antt =====
-- internal/agent/agent.go, poll: one round of the agent.
use opensourcebackup.Prelude.{List, Option, [], if◌then◌else◌, none, some, ◌∷◌}
use opensourcebackup.Agent.Client.{ClientError, is_unauthorized}
use opensourcebackup.Agent.Delivery.{Desk}
use opensourcebackup.Agent.Execution.{AgentConfig, ControlPlaneClient, Runner, Workstation}
use opensourcebackup.Agent.Execution.Backup.{execute_job}
use opensourcebackup.Agent.Execution.Checks.{execute_next_restore_test, execute_verify_job}
use opensourcebackup.Catalog.Models.{BackupJob, Result, err, ok, retention, verify}

module _ {S : Type 0} (client : ControlPlaneClient S) (runner : Runner) (cfg : AgentConfig)
    (desk : Workstation) where
  -- The switch on the job's type; every other name is run as a backup.
  unfoldable pub execute_by_type : BackupJob → Desk S → Option (Desk S)
  execute_by_type j d = elim j.type [
    | retention ↦ some d
    | verify ↦ execute_verify_job client runner cfg desk j d
    | _ ↦ some (execute_job client runner cfg desk j d)
  ]

  unfoldable pub execute_all : List BackupJob → Desk S → Option (Desk S)
  execute_all [] d = some d
  execute_all (j ∷ js) d = elim (execute_by_type j d) [ none ↦ none | some d' ↦ execute_all js d' ]

  abbrev after_restore_test : Option ClientError × S → Desk S → Option ClientError × Desk S
  after_restore_test (answer, s) d = (answer, record d { remote = s })

  abbrev after_jobs : Option (Desk S) → Option (Option ClientError × Desk S)
  after_jobs none = none
  after_jobs (some d) =
      some (after_restore_test (execute_next_restore_test client runner cfg desk d.remote) d)

  abbrev polled :
      Result ClientError (List BackupJob) → Desk S → Option (Option ClientError × Desk S)
  polled (err x) d = some (if is_unauthorized x then some x else none, d)
  polled (ok js) d = after_jobs (execute_all js d)

  abbrev after_heartbeat : Option ClientError × S → Desk S → Option (Option ClientError × Desk S)
  after_heartbeat (none, s) d = polled (client.list_pending_jobs s) (record d { remote = s })
  after_heartbeat (some x, s) d =
      if is_unauthorized x
      then some (some x, record d { remote = s })
      else polled (client.list_pending_jobs s) (record d { remote = s })

  -- An error ends the agent's loop.
  unfoldable pub poll : Desk S → Option (Option ClientError × Desk S)
  poll d = after_heartbeat (client.heartbeat d.remote) d
