-- ===== src/Scenarios/Running.antt =====
-- The theorems on a job that the agent runs.
use opensourcebackup.Prelude.{
  List, Option, [], arith, false, length, none, true, ℕ, ◌*◌, ◌+◌, ◌-◌, ◌∷◌, ◌≤◌,
}
use opensourcebackup.Agent.Client.{catalog_err_not_found, err_not_found}
use opensourcebackup.Agent.Delivery.{ControlPlane, Desk}
use opensourcebackup.Agent.Execution.{AgentConfig, ControlPlaneClient, Runner, Workstation}
use opensourcebackup.Agent.Execution.Backup.{execute_job}
use opensourcebackup.Agent.Execution.Endings.{Ending, Reports, execute_job-Ending}
use opensourcebackup.Agent.Execution.Progress.{Update, on_progress_all, on_progress_bound}
use opensourcebackup.Agent.Outbox.{Event}
use opensourcebackup.Catalog.Models.{err, ok, second}
use opensourcebackup.Scenarios.Data.{a_policy, a_repository, waiting}

abbrev shown : ℕ → Update
shown t = record {
  at = t * second;
  phase = "backup";
  percent = 10_000;
  bytes_done = t;
  total_bytes = 100;
  files_done = 1;
  total_files = 9;
}

abbrev updates : List Update
updates = shown 10 ∷ shown 11 ∷ shown 13 ∷ shown 14 ∷ []

on_progress_bound_example :
    2 * second * length (on_progress_all updates) ≤ (15 * second - 10 * second) + 2 * second
on_progress_bound_example = on_progress_bound updates (10 * second) (15 * second) (omega arith) (
  (omega arith, omega arith),
  ((omega arith, omega arith), ((omega arith, omega arith), ((omega arith, omega arith), tt))),
)

-- A control plane that grants every call.
abbrev granting : ControlPlane (Unit {0})
granting call id s = (none, s)

abbrev client : ControlPlaneClient (Unit {0})
client = record {
  call = granting;
  heartbeat = λ s. (none, s);
  list_pending_jobs = λ s. ok (waiting ∷ []);
  get_policy = λ id s. ok a_policy;
  get_repository = λ id s. ok a_repository;
  get_snapshot = λ id s. err err_not_found;
  claim_restore_test = λ s. (err catalog_err_not_found, s);
  complete_restore_test = λ id files bytes s. (none, s);
  fail_restore_test = λ id reason s. (none, s);
}

abbrev restic : Runner
restic = record {
  backup = λ o. record {
    updates = updates;
    polls = ok false ∷ [];
    ended =
        ok (record { snapshot_id = "cc33"; bytes_added = 700; files_new = 1; files_changed = 2 });
  };
  verify_repo = λ repo password. none;
  restore = λ o. err "no such snapshot";
}

abbrev config : AgentConfig
config = record { restic_password = "secret"; restic_repo = ""; restore_test_root = "" }

abbrev workstation : Workstation
workstation = record {
  has_outbox = true;
  fault = none;
  removes = true;
  now = 2_000;
  error_text = λ what e. what;
  join = λ root id. root;
}

abbrev idle_desk : Desk (Unit {0})
idle_desk = record { remote = tt; outbox = []; answers = [] }

execute_job-Ending_example :
    (e : Option Event) × Ending client restic config workstation waiting tt e
    × Reports e idle_desk (execute_job client restic config workstation waiting idle_desk)
execute_job-Ending_example = execute_job-Ending client restic config workstation waiting idle_desk
