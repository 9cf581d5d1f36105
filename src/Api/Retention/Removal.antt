-- ===== src/Api/Retention/Removal.antt =====
-- internal/api/agent_retention.go: what the removal of approved candidates leaves in the catalog.
use opensourcebackup.Catalog.RestoreTests
use opensourcebackup.Catalog.Snapshots
use opensourcebackup.Prelude.{
  &&-left, &&-right, All, All-order_by, All-select_where, Bool, Bool-cases, List, String, [], ap,
  arith, count_where, count_where-le, count_where-witness, false, inl, inr, not, refl, some, subst,
  sym, true, ℕ, ◌&&◌, ◌∙◌, ◌∷◌, ◌≡◌, ◌≢◌, ◌≤◌,
}
use opensourcebackup.Api.Http.{
  Body, Request, decoded, finish, finish-require, finish-require_body, finish-require_ok, go, ◌>>=◌,
}
use opensourcebackup.Api.Retention.{
  RetentionAnswer, handle_complete_retention_job, is_verified_by, listed, remove_snapshots,
  surviving_verified, system_or_nil, update_step, verdict,
}
use opensourcebackup.Api.Retention.Safety.{IsDated, judge-survivor}
use opensourcebackup.Api.Server.{Server, Surroundings, with_jobs}
use opensourcebackup.Catalog.Jobs.Queries.{get_by_id}
use opensourcebackup.Catalog.Jobs.Statements.{Jobs, Outcome}
use opensourcebackup.Catalog.Models.{Snapshot, err, ok}
use opensourcebackup.Catalog.Snapshots.{SnapshotTables, Snapshots, snapshot_key}
use opensourcebackup.Prelude.Table.{Unique, Unique-find, find, find-delete_where}

-- The row is in the table under its key.
abbrev pub IsStored : Snapshots → Snapshot → Type 0
IsStored table sn = find snapshot_key sn.id table ≡ some sn

delete-other :
    (i k : ℕ) (tables : SnapshotTables)
    → k ≢ i
    → find snapshot_key k (Snapshots.delete i tables).1.0 ≡ find snapshot_key k tables.0
unfolding Snapshots.delete
delete-other i k tables ne = ground (arith, find-delete_where snapshot_key i k tables.0 ne)

module _ (removed : List String) (kept : Snapshot)
    (h : listed kept.engine_snapshot_id removed ≡ false) where
  -- The loop leaves a row whose engine id is not listed.
  remove_snapshots-keeps :
      (sns : Snapshots) (tables : SnapshotTables) (original : Snapshots)
      → IsStored original kept
      → All (IsStored original) sns
      → find snapshot_key kept.id (remove_snapshots removed sns tables).0
        ≡ find snapshot_key kept.id tables.0
  unfolding remove_snapshots
  remove_snapshots-keeps [] tables original stored a = refl
  remove_snapshots-keeps (sn ∷ sns) tables original stored a =
      remove_snapshots-keeps sns _ original stored a.1
      ∙ elim (Bool-cases (listed sn.engine_snapshot_id removed)) [
        | inl drops ↦ rw drops (delete-other sn.id kept.id tables (differs drops))
        | inr stays ↦ rw stays refl
      ]
    where
      differs : listed sn.engine_snapshot_id removed ≡ true → kept.id ≢ sn.id
      differs drops eq =
          let same : some kept ≡ some sn =
            sym stored ∙ ap (λ k. find snapshot_key k original) eq ∙ a.0 in
          cc

-- The snapshots that the handler lists, and the restore-tested ones.
abbrev pub own_snapshots : ℕ → Server → Snapshots
own_snapshots system_id s = Snapshots.list_by_system system_id s.catalog.jobs s.snapshots

abbrev pub has_test : ℕ → Server → ℕ → Bool
has_test system_id s = is_verified_by (RestoreTests.list_by_system_id system_id s.restore_tests)

-- The verdict of the handler, with the early answer for an empty list of candidates.
verdict-survivor :
    (system_id : ℕ) (ids : List String) (s : Server)
    → All IsDated (own_snapshots system_id s)
    → 1 ≤ count_where (λ sn. has_test system_id s sn.id) (own_snapshots system_id s)
    → 1
      ≤ surviving_verified
          (has_test system_id s)
          (verdict system_id ids s).approved_ids
          (own_snapshots system_id s)
unfolding surviving_verified
verdict-survivor system_id [] s d c = omega (
  arith,
  c,
  count_where-le (λ sn. has_test system_id s sn.id)
      (λ sn. has_test system_id s sn.id && not (listed sn.engine_snapshot_id []))
      (λ sn. ground arith) (own_snapshots system_id s),
)
verdict-survivor system_id (id ∷ ids) s d c =
    judge-survivor (has_test system_id s) (id ∷ ids) (own_snapshots system_id s) d c

-- Completion leaves the snapshots as they were, or runs the loop on the rows of the caller.
complete-snapshots :
    (env : Surroundings) (r : Request (List String)) (s : Server) (P : Snapshots → Type 0)
    → P s.snapshots
    → ((removed : List String) (jobs : Jobs)
        → r.body ≡ decoded removed
        → P (
            (remove_snapshots removed
              (Snapshots.list_by_system (system_or_nil r.system) jobs s.snapshots)
              (s.snapshots, s.restore_tests)).0))
    → P (handle_complete_retention_job env r s).1.snapshots
unfolding handle_complete_retention_job
complete-snapshots env r s P same loop =
    let Q = λ (a : RetentionAnswer). P a.1.snapshots in
    finish-require Q _ r.path_id _ (λ _. same)
      (λ job_key _.
        finish-require_body Q _ r.body _ (λ _ _. same)
          (λ removed b.
            finish-require_ok Q _ (get_by_id job_key s.catalog.jobs) _ (λ _ _. same)
              (λ j _. updated removed b _ _ (λ _. refl))))
  where
    updated :
        (removed : List String)
        → r.body ≡ decoded removed
        → (o : Outcome) (k : Server → RetentionAnswer)
        → ((s' : Server)
            → (k s').1.snapshots
              ≡ (remove_snapshots removed
                  (Snapshots.list_by_system (system_or_nil r.system) s'.catalog.jobs s'.snapshots)
                  (s'.snapshots, s'.restore_tests)).0)
        → P (finish (update_step o s >>= λ s'. go (k s'))).1.snapshots
    updated removed b (ok _, jobs) k e = subst P (sym (e (with_jobs jobs s))) (loop removed jobs b)
    updated removed b (err x, jobs) k e = same

abbrev listed_in : Body (List String) → List String
listed_in (decoded l) = l
listed_in _ = []

listing-IsStored :
    (system_id : ℕ) (jobs : Jobs) (table : Snapshots)
    → Unique snapshot_key table
    → All (IsStored table) (Snapshots.list_by_system system_id jobs table)
unfolding Snapshots.list_by_system
listing-IsStored system_id jobs table u =
    All-order_by (IsStored table) _ _
      (All-select_where (IsStored table) _ table (Unique-find snapshot_key table u))

-- A list of candidates is judged in one state, and a completion comes in the same or another state.
-- Let snapshots have distinct keys in both; in the first, let the snapshots of a system have engine
-- ids and times after 1970, and let one of them have a successful restore test; in the second, let
-- every snapshot with such a test be stored as it was at the judgement. If all the removed ids that the
-- completion reports were approved at that judgement, then a snapshot that had a successful test at it
-- is still stored after the completion.
pub complete-survivor :
    (env : Surroundings) (r : Request (List String)) (before s : Server) (system_id : ℕ)
    (ids removed : List String)
    → Unique snapshot_key before.snapshots
    → Unique snapshot_key s.snapshots
    → All IsDated (own_snapshots system_id before)
    → 1 ≤ count_where (λ sn. has_test system_id before sn.id) (own_snapshots system_id before)
    → ((sn : Snapshot)
        → IsStored before.snapshots sn
        → has_test system_id before sn.id ≡ true
        → IsStored s.snapshots sn)
    → r.body ≡ decoded removed
    → ((e : String)
        → listed e removed ≡ true
        → listed e (verdict system_id ids before).approved_ids ≡ true)
    → let after = (handle_complete_retention_job env r s).1 in
      (sn : Snapshot) × (has_test system_id before sn.id ≡ true)
      × (find snapshot_key sn.id after.snapshots ≡ some sn)
unfolding surviving_verified
complete-survivor env r before s system_id ids removed v u d c held b subset =
    let (sn, hit, was_stored) =
      count_where-witness (IsStored before.snapshots) _ (own_snapshots system_id before)
        (verdict-survivor system_id ids before d c)
        (listing-IsStored system_id before.catalog.jobs before.snapshots v) in
    let verified_row = &&-left (has_test system_id before sn.id) _ hit in
    let refused = &&-right (has_test system_id before sn.id) _ hit in
    let stored = held sn was_stored verified_row in
    let unlisted : listed sn.engine_snapshot_id removed ≡ false =
      elim (Bool-cases (listed sn.engine_snapshot_id removed)) [
        | inl drops ↦ ground (arith, refused, subset sn.engine_snapshot_id drops)
        | inr stays ↦ stays
      ] in
    (
      sn,
      verified_row,
      complete-snapshots env r s (λ t. find snapshot_key sn.id t ≡ some sn) stored
          (λ l jobs b'.
            remove_snapshots-keeps l sn (unlisted_in sn unlisted l b') _
              (s.snapshots, s.restore_tests) s.snapshots stored
              (listing-IsStored (system_or_nil r.system) jobs s.snapshots u)
            ∙ stored),
    )
  where
    unlisted_in :
        (sn : Snapshot)
        → listed sn.engine_snapshot_id removed ≡ false
        → (l : List String) → r.body ≡ decoded l
        → listed sn.engine_snapshot_id l ≡ false
    unlisted_in sn h l b' =
        subst (λ m. listed sn.engine_snapshot_id m ≡ false) (ap listed_in (sym b ∙ b')) h
