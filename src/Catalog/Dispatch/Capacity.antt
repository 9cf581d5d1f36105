-- ===== src/Catalog/Dispatch/Capacity.antt =====
-- internal/catalog/dispatch.go: the three ceilings, in any interleaving of the steps of `Step`. Each
-- statement or transaction of the store is one step: PostgreSQL's row lock and the advisory lock make
-- AdmitStart one. The table of policies stays as it is: a policy that moves to another repository
-- moves its running jobs with it. The handlers createJob and updateJob, which write any status, are no
-- steps either.
use mathlib.Core.Option
use native.Mathlib.Nat.{le_trans}
use opensourcebackup.Prelude.{
  Bool, Bool-cases, Option, ap, arith, bit, count_where, if◌then◌else◌, inl, inr, none, refl, some,
  subst, sym, true, ℕ, ◌+◌, ◌∙◌, ◌≡◌, ◌≢◌, ◌≤◌,
}
use opensourcebackup.Catalog.Dispatch.Gates.{
  Admitted, admit_start-Admitted, admit_start-unchanged, is_admitted,
}
use opensourcebackup.Catalog.Dispatch.Guard.{
  Database, DispatchDecision, DispatchError, Stage, admit_start, occupies, occupies_agent,
  occupies_repository, repository_of,
}
use opensourcebackup.Catalog.Dispatch.Limits.{DispatchLimits}
use opensourcebackup.Catalog.Dispatch.Slots.{
  Sanctioned, occupies-IsSlot, occupies_agent-IsSlot, occupies_repository-IsSlot, step-Unique,
  step-le,
}
use opensourcebackup.Catalog.Jobs.Lifecycle.{Op, step}
use opensourcebackup.Catalog.Jobs.Rows.{set_running}
use opensourcebackup.Catalog.Jobs.Statements.{on_job}
use opensourcebackup.Catalog.Models.{
  BackupJob, BackupPolicy, Result, err, is_pending, job_id, ok, pending,
}
use opensourcebackup.Catalog.OperationState.{OperationState}
use opensourcebackup.Catalog.Systems.{System, set_operation_state, update_last_seen}
use opensourcebackup.Prelude.Int.{pos_part}
use opensourcebackup.Prelude.Table.{
  Unique, count_where-update_where, find, find-key, find-update_where, update_where,
  update_where-Unique,
}

-- The running jobs keep to the limits, and the keys of the jobs are distinct.
pub record IsWithin (limits : DispatchLimits) (db : Database) : Type 0 where
  pub unique : Unique job_id db.jobs
  pub global : count_where occupies db.jobs ≤ pos_part limits.global
  pub agent : (a : ℕ) → count_where (occupies_agent a) db.jobs ≤ pos_part limits.per_agent
  pub repository :
      (r : ℕ)
      → count_where (occupies_repository db.policies r) db.jobs ≤ pos_part limits.per_repository

pub data Step (limits : DispatchLimits) : Database → Database → Type 0 where
  dispatch :
      (db : Database) (faults : Stage → Bool) (id now db_now : ℕ)
      → Step limits db (admit_start faults limits id now db_now db).1
  operate :
      (db : Database) (op : Op)
      → Sanctioned op db.jobs
      → Step limits db (record db { jobs = step op db.jobs })
  heartbeat :
      (db : Database) (id seen_at : ℕ)
      → Step limits db (record db { systems = (update_last_seen id seen_at db.systems).1 })
  operator :
      (db : Database) (id : ℕ) (state : OperationState) (now : ℕ)
      → Step limits db (record db { systems = (set_operation_state id state now db.systems).1 })

pub data Reach (limits : DispatchLimits) (db : Database) : Database → Type 0 where
  here : Reach limits db db
  next : {e f : Database} → Reach limits db e → Step limits e f → Reach limits db f

operate-IsWithin :
    (limits : DispatchLimits) (db : Database) (op : Op)
    → Sanctioned op db.jobs
    → IsWithin limits db
    → IsWithin limits (record db { jobs = step op db.jobs })
operate-IsWithin limits db op h w = record {
  unique = step-Unique op db.jobs h w.unique;
  global = le_trans (step-le occupies occupies-IsSlot op db.jobs h) w.global;
  agent =
      λ a. le_trans (step-le (occupies_agent a) (occupies_agent-IsSlot a) op db.jobs h) (w.agent a);
  repository = λ r.
      le_trans
        (step-le (occupies_repository db.policies r) (occupies_repository-IsSlot db.policies r) op
          db.jobs h)
        (w.repository r);
}

-- An admitted job takes a slot that was free.
module _ (limits : DispatchLimits) (id now db_now : ℕ) (db db' : Database) (d : DispatchDecision)
    (job : BackupJob) (policy : BackupPolicy) (system : System)
    (a : Admitted limits id now db_now db db' d job policy system) (w : IsWithin limits db) where
  moved :
      (q : BackupJob → Bool)
      → count_where q (update_where (on_job id is_pending) (set_running db_now) db.jobs)
          + bit (q job)
        ≡ count_where q db.jobs
          + bit (q (if is_pending job.status then set_running db_now job else job))
  moved q =
      count_where-update_where job_id q (λ j. is_pending j.status) (set_running db_now) id db.jobs
        w.unique a.job_found

  Admitted-IsWithin : IsWithin limits db'
  unfolding set_running repository_of
  Admitted-IsWithin = rw a.db_after (record {
    unique =
        update_where-Unique job_id (on_job id is_pending) (set_running db_now) (λ _. refl) db.jobs
          w.unique;
    global = ground (arith, moved occupies, w.global, a.no_reason, a.was_pending);
    agent = λ g. ground (arith, moved (occupies_agent g), w.agent g, a.no_reason, a.was_pending);
    repository = λ r. ground (
      arith,
      moved (occupies_repository db.policies r),
      w.repository r,
      a.no_reason,
      a.was_pending,
      a.policy_found,
    );
  })

dispatch-IsWithin :
    (limits : DispatchLimits) (db : Database) (faults : Stage → Bool) (id now db_now : ℕ)
    → IsWithin limits db
    → (r : Result DispatchError DispatchDecision) (db' : Database)
    → admit_start faults limits id now db_now db ≡ (r, db')
    → IsWithin limits db'
dispatch-IsWithin limits db faults id now db_now w (err e) db' h =
    let same = admit_start-unchanged faults limits id now db_now db (ap (λ p. is_admitted p.0) h) in
    subst (IsWithin limits) (sym same ∙ ap (λ p. p.1) h) w
dispatch-IsWithin limits db faults id now db_now w (ok d) db' h = elim (Bool-cases d.allowed) [
  | inl yes_ ↦
      let (job, policy, system, a) =
        admit_start-Admitted faults limits id now db_now db d db' h yes_ in
      Admitted-IsWithin limits id now db_now db db' d job policy system a w
  | inr held ↦
      let same =
        admit_start-unchanged faults limits id now db_now db (ap (λ p. is_admitted p.0) h ∙ held) in
      subst (IsWithin limits) (sym same ∙ ap (λ p. p.1) h) w
]

Step-IsWithin :
    {limits : DispatchLimits} {db db' : Database}
    → Step limits db db'
    → IsWithin limits db
    → IsWithin limits db'
Step-IsWithin {limits} (dispatch db faults id now db_now) w =
    dispatch-IsWithin limits db faults id now db_now w
      (admit_start faults limits id now db_now db).0 _ refl
Step-IsWithin {limits} (operate db op h) w = operate-IsWithin limits db op h w
Step-IsWithin (heartbeat db id seen_at) w = record {
  unique = w.unique;
  global = w.global;
  agent = w.agent;
  repository = w.repository;
}
Step-IsWithin (operator db id state now) w = record {
  unique = w.unique;
  global = w.global;
  agent = w.agent;
  repository = w.repository;
}

-- Start from a database with distinct job keys, in which the running jobs of the platform, of each
-- repository and of each agent are within the limits. They stay within the limits under these steps,
-- in any number and order: a start through the guard, with any technical failures; a completion, a
-- failure or a cancellation of a job; an update or the end of its progress; a request to cancel; the
-- reaper; the insertion of a pending job under a new key; a heartbeat; and a change of a system's
-- operation state. Unguarded starts, direct writes of a job's status and changes of policies are not
-- among these steps.
pub Reach-IsWithin :
    {limits : DispatchLimits} {db db' : Database}
    → Reach limits db db'
    → IsWithin limits db
    → IsWithin limits db'
Reach-IsWithin here w = w
Reach-IsWithin (next r s) w = Step-IsWithin s (Reach-IsWithin r w)

module _ (faults : Stage → Bool) (limits : DispatchLimits) (id now db_now : ℕ) (db : Database) where
  -- Where job keys are distinct, an admission makes the pending job run from the time of its
  -- statement, leaves every other job as it was, and reports the numbers of jobs that run on the
  -- platform and on the agent after it, whichever statements may fail technically.
  pub admit_start-admitted :
      (d : DispatchDecision) (db' : Database)
      → Unique job_id db.jobs
      → admit_start faults limits id now db_now db ≡ (ok d, db')
      → d.allowed ≡ true
      → (job : BackupJob) × (find job_id id db.jobs ≡ some job)
        × (job.status ≡ pending)
        × (find job_id id db'.jobs ≡ some (set_running db_now job))
        × ((k : ℕ) → k ≢ id → find job_id k db'.jobs ≡ find job_id k db.jobs)
        × (d.global_running ≡ count_where occupies db'.jobs)
        × (d.running_count ≡ count_where (occupies_agent job.system_id) db'.jobs)
  unfolding set_running
  admit_start-admitted d db' u h yes_ =
      let (job, policy, system, a) =
        admit_start-Admitted faults limits id now db_now db d db' h yes_ in
      let row = find-update_where job_id (on_job id is_pending) (set_running db_now) (λ _. refl) in
      let count = λ (q : BackupJob → Bool).
        count_where-update_where job_id q (λ j. is_pending j.status) (set_running db_now) id db.jobs
          u a.job_found in
      (
        job,
        a.job_found,
        a.was_pending,
        ap (λ b. find job_id id b.jobs) a.db_after
            ∙ row id db.jobs
            ∙ rw a.job_found
                (ground (arith, a.was_pending, find-key job_id id db.jobs a.job_found)),
        λ k ne.
            ap (λ b. find job_id k b.jobs) a.db_after
            ∙ row k db.jobs
            ∙ untouched k ne (find job_id k db.jobs) refl,
        rw a.db_after (ground (arith, count occupies, a.global_counted, a.was_pending)),
        rw a.db_after
            (ground (arith, count (occupies_agent job.system_id), a.agent_counted, a.was_pending)),
      )
    where
      untouched :
          (k : ℕ)
          → k ≢ id
          → (o : Option BackupJob) → find job_id k db.jobs ≡ o
          → Option.map
              (λ x. if on_job id is_pending x then set_running db_now x else x)
              (find job_id k db.jobs)
            ≡ find job_id k db.jobs
      untouched k ne none e = rw e
      untouched k ne (some x) e = rw e (ground (arith, find-key job_id k db.jobs e))
