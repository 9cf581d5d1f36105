-- ===== src/Agent/Execution/Checks.antt =====
-- internal/agent/agent.go, executeVerifyJob and executeNextRestoreTest.
use opensourcebackup.Prelude.{Option, String, if◌then◌else◌, none, some, str_eq, ℕ}
use opensourcebackup.Agent.Client.{ClientError, is_unauthorized}
use opensourcebackup.Agent.Delivery.{Desk}
use opensourcebackup.Agent.Execution.{
  AgentConfig, ControlPlaneClient, RestoreResult, Runner, Workstation, fail_event, report_from,
  verified_event,
}
use opensourcebackup.Api.AgentJobs.Ownership.{call_start}
use opensourcebackup.Catalog.Jobs.Transitions.{target}
use opensourcebackup.Catalog.Models.{
  BackupJob, BackupPolicy, RestoreTest, Result, Snapshot, err, ok,
}
use opensourcebackup.Catalog.Repositories.{BackupRepository}

module _ {S : Type 0} (client : ControlPlaneClient S) (runner : Runner) (cfg : AgentConfig)
    (desk : Workstation) where
  abbrev verified : BackupJob → Option String → Desk S → Desk S
  verified j (some message) d = report_from desk client.call (fail_event j.id message) d
  verified j none d = report_from desk client.call (verified_event j.id) d

  abbrev verify_started : BackupJob → BackupRepository → Option ClientError × S → Desk S → Desk S
  verify_started j r (some x, s) d = record d { remote = s }
  verify_started j r (none, s) d =
      verified j (runner.verify_repo r.location cfg.restic_password) (record d { remote = s })

  abbrev verify_repository : BackupJob → Result ClientError BackupRepository → Desk S → Desk S
  verify_repository j (err x) d =
      report_from desk client.call (fail_event j.id (desk.error_text "get repository" x)) d
  verify_repository j (ok r) d = verify_started j r (client.call call_start j.id d.remote) d

  abbrev verify_repository_id : BackupJob → Option ℕ → Desk S → Option (Desk S)
  verify_repository_id j none d = none
  verify_repository_id j (some id) d =
      some (verify_repository j (client.get_repository id d.remote) d)

  abbrev verify_policy : BackupJob → Result ClientError BackupPolicy → Desk S → Option (Desk S)
  verify_policy j (err x) d =
      some (report_from desk client.call (fail_event j.id (desk.error_text "get policy" x)) d)
  verify_policy j (ok p) d = verify_repository_id j p.repository_id d

  -- `none` is the panic of the nil repository id, which ends the agent.
  unfoldable pub execute_verify_job : BackupJob → Desk S → Option (Desk S)
  execute_verify_job j d = verify_policy j (client.get_policy j.policy_id d.remote) d

  -- executeNextRestoreTest, after the claim.
  abbrev target_of : String → RestoreTest → String × String
  target_of root rt = elim rt.target_path [
    | none ↦ (desk.join root rt.id, root)
    | some path ↦ if str_eq path "" then (desk.join root rt.id, root) else (path, "")
  ]

  unfoldable pub restore_root : String
  restore_root =
      if str_eq cfg.restore_test_root "" then "data/restore-tests" else cfg.restore_test_root

  abbrev restored : RestoreTest → Result String RestoreResult → S → S
  restored rt (err message) s = (client.fail_restore_test rt.id message s).1
  restored rt (ok r) s = (client.complete_restore_test rt.id r.verified_files r.verified_bytes s).1

  abbrev restore_from : RestoreTest → Snapshot → Result ClientError BackupRepository → S → S
  restore_from rt sn (err x) s =
      (client.fail_restore_test rt.id (desk.error_text "repository lookup" x) s).1
  restore_from rt sn (ok r) s =
      let (target, root) = target_of restore_root rt in
      restored rt
        (runner.restore record {
          repo = r.location;
          password = cfg.restic_password;
          snapshot_id = sn.engine_snapshot_id;
          target_path = target;
          restore_root = root;
        })
        s

  abbrev restore_snapshot : RestoreTest → Result ClientError Snapshot → S → S
  restore_snapshot rt (err x) s =
      (client.fail_restore_test rt.id (desk.error_text "snapshot lookup" x) s).1
  restore_snapshot rt (ok sn) s = restore_from rt sn (client.get_repository rt.repository_id s) s

  abbrev restore_claimed : Result ClientError RestoreTest × S → Option ClientError × S
  restore_claimed (err x, s) = (if is_unauthorized x then some x else none, s)
  restore_claimed (ok rt, s) = (none, restore_snapshot rt (client.get_snapshot rt.snapshot_id s) s)

  unfoldable pub execute_next_restore_test : S → Option ClientError × S
  execute_next_restore_test s = restore_claimed (client.claim_restore_test s)
