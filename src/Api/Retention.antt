-- ===== src/Api/Retention.antt =====
-- internal/api/agent_retention.go: the handlers of retention jobs, with the safety rule. Whole
-- seconds since 1970 are compared only with numbers from 0 on, so an instant before 1970 counts as 0.
pub mod Removal
pub mod Overwriting
pub mod Safety
use opensourcebackup.Catalog.Jobs.Statements
use opensourcebackup.Catalog.RestoreTests
use opensourcebackup.Catalog.Snapshots
use opensourcebackup.Audit
use opensourcebackup.Prelude.{
  Bool, List, Option, String, [], any_where, count_where, false, if◌then◌else◌, length, ltb, map,
  none, not, select_where, some, str_eq, ℕ, ◌&&◌, ◌-◌, ◌/◌, ◌==◌, ◌∷◌,
}
use opensourcebackup.Api.Http.{
  Flow, Request, Response, error, finish, go, http_status_for_error, reply, require, require_body,
  require_ok, stop, ◌>>=◌, ◌>>◌,
}
use opensourcebackup.Api.Server.{Server, Surroundings, with_jobs}
use opensourcebackup.Audit.{
  agent, append, as_failed, by, event, from_ip, retention_completed, retention_failed,
  retention_run, with_details, with_severity,
}
use opensourcebackup.Catalog.Jobs.Queries.{get_by_id}
use opensourcebackup.Catalog.Jobs.Statements.{Outcome}
use opensourcebackup.Catalog.Models.{
  Snapshot, StoreError, err, failed, is_success, ok, second, success,
}
use opensourcebackup.Catalog.RestoreTests.{RestoreTests}
use opensourcebackup.Catalog.Snapshots.{SnapshotTables, Snapshots}

pub record ValidateRequest : Type 0 where
  pub policy_id : String
  pub candidate_ids : List String

pub record Verdict : Type 0 where
  pub approved_ids : List String
  pub protected_ids : List String
  pub reason : String

-- A Go map to bool, read at a key.
abbrev pub listed : String → List String → Bool
listed e ids = any_where (λ id. str_eq e id) ids

-- The map `verified`.
unfoldable pub is_verified_by : RestoreTests → ℕ → Bool
is_verified_by tests snapshot_id =
    any_where (λ rt. is_success rt.status && rt.snapshot_id == snapshot_id) tests

unfoldable pub surviving_verified : (ℕ → Bool) → List String → Snapshots → ℕ
surviving_verified verified ids snapshots =
    count_where (λ sn. verified sn.id && not (listed sn.engine_snapshot_id ids)) snapshots

abbrev pub unix_epoch : ℕ
unix_epoch = 62_135_596_800

abbrev pub unix : ℕ → ℕ
unix t = t / second - unix_epoch

-- `latestTime` and `latestVerifiedEngineID`.
pub record Latest : Type 0 where
  pub time : ℕ
  pub engine_id : String

abbrev pub later : (ℕ → Bool) → List String → Snapshot → Latest → Latest
later verified ids sn best =
    if verified sn.id && listed sn.engine_snapshot_id ids && ltb best.time (unix sn.created_at)
    then record { time = unix sn.created_at; engine_id = sn.engine_snapshot_id }
    else best

unfoldable pub latest_verified : (ℕ → Bool) → List String → Snapshots → Latest → Latest
latest_verified verified ids [] best = best
latest_verified verified ids (sn ∷ sns) best =
    latest_verified verified ids sns (later verified ids sn best)

-- The map `protected`, read at a key: `protects ""` is the empty map.
abbrev pub protects : String → String → Bool
protects e id = if str_eq e "" then false else str_eq e id

unfoldable pub protected_id : (ℕ → Bool) → List String → Snapshots → String
protected_id verified ids snapshots =
    if surviving_verified verified ids snapshots == 0
    then (latest_verified verified ids snapshots (record { time = 0; engine_id = "" })).engine_id
    else ""

abbrev pub verdict_reason : List String → String
verdict_reason [] = "all candidates approved"
verdict_reason (_ ∷ _) = "safety rule: last restore-tested snapshot protected from deletion"

unfoldable pub judge : (ℕ → Bool) → List String → Snapshots → Verdict
judge verified ids snapshots =
    let kept = protected_id verified ids snapshots in
    let protected_list = select_where (λ id. protects kept id) ids in
    record {
      approved_ids = select_where (λ id. not (protects kept id)) ids;
      protected_ids = protected_list;
      reason = verdict_reason protected_list;
    }

abbrev pub verdict : ℕ → List String → Server → Verdict
verdict system_id [] s = record { approved_ids = []; protected_ids = []; reason = "no candidates" }
verdict system_id (id ∷ ids) s =
    judge (is_verified_by (RestoreTests.list_by_system_id system_id s.restore_tests)) (id ∷ ids)
      (Snapshots.list_by_system system_id s.catalog.jobs s.snapshots)

unfoldable pub handle_retention_validate : Request ValidateRequest → Server → Response Verdict
handle_retention_validate r s = finish do
  system_id ← require r.system (error 401)
  req ← require_body r.body (λ c. error c)
  go (reply 200 (verdict system_id req.candidate_ids s))

-- The loop that deletes; an error of Delete is logged only.
unfoldable pub remove_snapshots : List String → Snapshots → SnapshotTables → SnapshotTables
remove_snapshots removed [] tables = tables
remove_snapshots removed (sn ∷ sns) tables =
    remove_snapshots removed sns
      (if listed sn.engine_snapshot_id removed then (Snapshots.delete sn.id tables).1 else tables)

-- SystemIDFromContext without its flag: uuid.Nil if there is none.
abbrev pub system_or_nil : Option ℕ → ℕ
system_or_nil none = 0
system_or_nil (some id) = id

abbrev pub RetentionAnswer : Type 0
RetentionAnswer = Response String × Server

abbrev pub retention_refuse : Server → StoreError → RetentionAnswer
retention_refuse s e = (error (http_status_for_error e), s)

abbrev pub update_step : Outcome → Server → Flow RetentionAnswer Server
update_step (ok _, jobs) s = go (with_jobs jobs s)
update_step (err e, jobs) s = stop (retention_refuse (with_jobs jobs s) e)

module _ (env : Surroundings) where
  unfoldable pub handle_complete_retention_job : Request (List String) → Server → RetentionAnswer
  handle_complete_retention_job r s = finish do
    job_key ← require r.path_id (error 400, s)
    removed ← require_body r.body (λ c. (error c, s))
    j ← require_ok (get_by_id job_key s.catalog.jobs) (retention_refuse s)
    s' ←
        update_step
          (Statements.update (record j { status = success; finished_at = some env.now })
            s.catalog.jobs)
          s
    let listing = Snapshots.list_by_system (system_or_nil r.system) s'.catalog.jobs s'.snapshots
    let tables = remove_snapshots removed listing (s'.snapshots, s'.restore_tests)
    go (
      reply 200 "ok",
      record s' {
        snapshots = tables.0;
        restore_tests = tables.1;
        audit_log =
            append env.now
              (with_details (env.removed_text (length removed)) (
                from_ip env.client_ip (by agent (event retention_completed retention_run job_key))))
              s'.audit_log;
      },
    )

  unfoldable pub handle_fail_retention_job : Request String → Server → RetentionAnswer
  handle_fail_retention_job r s = finish do
    job_key ← require r.path_id (error 400, s)
    why ← require_body r.body (λ c. (error c, s))
    j ← require_ok (get_by_id job_key s.catalog.jobs) (retention_refuse s)
    s' ←
        update_step
          (Statements.update
            (record j { status = failed; finished_at = some env.now; error_summary = some why })
            s.catalog.jobs)
          s
    go (
      reply 200 "ok",
      record s' {
        audit_log =
            append env.now
              (as_failed (
                with_severity Audit.warning (
                  with_details why (
                    from_ip env.client_ip
                      (by agent (event retention_failed retention_run job_key))))))
              s'.audit_log;
      },
    )
