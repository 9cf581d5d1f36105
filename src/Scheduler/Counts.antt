-- ===== src/Scheduler/Counts.antt =====
-- internal/scheduler/scheduler.go, dispatchBackup: which jobs a backup schedule creates.
use opensourcebackup.Prelude.{
  ==_iff, ==_refl, Bool, Bool-cases, List, Option, String, [], any_where, ap, arith, bit,
  count_where, if◌then◌else◌, inl, inr, insert_by, is_some, none, order_by, refl, some, ℕ, ◌&&◌,
  ◌+◌, ◌==◌, ◌∙◌, ◌∷◌, ◌≡◌,
}
use opensourcebackup.Catalog.Jobs.Queries.{list, newest_first}
use opensourcebackup.Catalog.Jobs.Statements.{Jobs}
use opensourcebackup.Catalog.Models.{BackupJob, BackupPolicy, backup, is_pending}
use opensourcebackup.Prelude.Table.{count_where-append}
use opensourcebackup.Scheduler.Dispatch.{
  create_jobs, create_row, dispatch_backup, distinct_systems, has_id, new_job, ran_policy,
  systems_for_policy,
}
use opensourcebackup.Scheduler.Window.{in_backup_window}
use opensourcebackup.Catalog.Jobs.Statements

-- A backup of the policy on the system, of any status.
abbrev pub ran_on : ℕ → ℕ → BackupJob → Bool
ran_on policy_id system_id j = ran_policy policy_id j && (j.system_id == system_id)

-- A backup of the policy on the system that waits.
abbrev pub waits_on : ℕ → ℕ → BackupJob → Bool
waits_on policy_id system_id j = ran_on policy_id system_id j && is_pending j.status

any_where-insert_by :
    (p : BackupJob → Bool) (before : BackupJob → BackupJob → Bool) (x : BackupJob) (xs : Jobs)
    → any_where p (insert_by before x xs) ≡ any_where p (x ∷ xs)
any_where-insert_by p before x [] = refl
any_where-insert_by p before x (y ∷ ys) = ground (arith, any_where-insert_by p before x ys)

any_where-order_by :
    (p : BackupJob → Bool) (before : BackupJob → BackupJob → Bool) (xs : Jobs)
    → any_where p (order_by before xs) ≡ any_where p xs
any_where-order_by p before [] = refl
any_where-order_by p before (x ∷ xs) =
    ground
      (arith, any_where-insert_by p before x (order_by before xs), any_where-order_by p before xs)

module _ (policy_id system_id : ℕ) where
  has_id-distinct_systems :
      (js : Jobs)
      → has_id system_id (distinct_systems policy_id js) ≡ any_where (ran_on policy_id system_id) js
  unfolding distinct_systems
  has_id-distinct_systems [] = refl
  has_id-distinct_systems (j ∷ js) = ground (arith, has_id-distinct_systems js)

  -- A system stands in the list once, if the policy ran a backup on it, and not otherwise.
  count-distinct_systems :
      (js : Jobs)
      → count_where (λ x. x == system_id) (distinct_systems policy_id js)
        ≡ bit (any_where (ran_on policy_id system_id) js)
  unfolding distinct_systems
  count-distinct_systems [] = refl
  count-distinct_systems (j ∷ js) =
      ground (arith, has_id-distinct_systems js, count-distinct_systems js)

  count-create_row :
      (o : Option (ℕ × ℕ)) (id : ℕ) (jobs : Jobs)
      → count_where (waits_on policy_id system_id) (create_row o (new_job policy_id id backup) jobs)
        ≡ count_where (waits_on policy_id system_id) jobs + bit ((id == system_id) && is_some o)
  unfolding Statements.create
  count-create_row none id jobs = ground arith
  count-create_row (some (k, t)) id jobs =
      count_where-append (waits_on policy_id system_id) jobs _ ∙ ground (arith, ==_refl policy_id)

  count-create_jobs :
      (inserts : ℕ → Option (ℕ × ℕ)) (ids : List ℕ) (jobs : Jobs)
      → count_where (waits_on policy_id system_id) (create_jobs inserts policy_id backup ids jobs)
        ≡ count_where (waits_on policy_id system_id) jobs
          + (if is_some (inserts system_id) then count_where (λ x. x == system_id) ids else 0)
  unfolding create_jobs
  count-create_jobs inserts [] jobs = ground arith
  count-create_jobs inserts (id ∷ ids) jobs =
      let jobs' = create_row (inserts id) (new_job policy_id id backup) jobs in
      let rest = count-create_jobs inserts ids jobs' in
      let first = count-create_row (inserts id) id jobs in
      elim (Bool-cases (id == system_id)) [
        | inl same ↦
            let eq : id ≡ system_id = (==_iff id system_id).0 same in
            let found_insert : is_some (inserts id) ≡ is_some (inserts system_id) =
              ap (λ k. is_some (inserts k)) eq in
            ground (arith, rest, first, same, found_insert)
        | inr differs ↦ ground (arith, rest, first, differs)
      ]

-- When a backup schedule fires, each system on which the policy ran a backup before gets exactly one
-- new waiting backup of the policy, if the time lies in the policy's window and the INSERT for that
-- system succeeds, whatever becomes of the other systems; any other system gets none.
pub dispatch_backup-count :
    (inserts : ℕ → Option (ℕ × ℕ)) (scan : String → ℕ × ℕ) (now_min : ℕ) (p : BackupPolicy)
    (system_id : ℕ) (jobs : Jobs)
    → count_where (waits_on p.id system_id) (dispatch_backup inserts scan now_min p jobs)
      ≡ count_where (waits_on p.id system_id) jobs
        + bit (
            in_backup_window scan p.schedule_config now_min
            && (is_some (inserts system_id) && any_where (ran_on p.id system_id) jobs))
unfolding dispatch_backup systems_for_policy list
dispatch_backup-count inserts scan now_min p system_id jobs = ground (
  arith,
  count-create_jobs p.id system_id inserts (distinct_systems p.id (order_by newest_first jobs))
      jobs,
  count-distinct_systems p.id system_id (order_by newest_first jobs),
  any_where-order_by (ran_on p.id system_id) newest_first jobs,
)
