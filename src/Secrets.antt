-- ===== src/Secrets.antt =====
-- internal/secrets/resolution.go: which credential reference a job of an agent may use. A store's
-- lookup fails with "not found"; a failure of the database itself is not modelled.
pub mod Authorization
use opensourcebackup.Prelude.{
  Bool, List, Option, [], false, if◌then◌else◌, ltb, none, not, order_by, select_where, some, true,
  ℕ, ◌==◌, ◌∷◌,
}
use opensourcebackup.Catalog.Jobs.Statements.{Jobs}
use opensourcebackup.Catalog.Models.{
  BackupPolicy, JobType, Result, backup, err, job_id, ok, policy_key, retention, verify,
}
use opensourcebackup.Catalog.Repositories.{
  BackupRepository, CredentialPurpose, CredentialReferenceStatus, RepositoryCredentialReference,
  active_reference, backup_write, repository_admin, repository_key, restore_read, retention_purpose,
  same_purpose,
}
use opensourcebackup.Prelude.Table.{find}

pub data ResolutionError : Type 0 where
  unauthorized_job unsupported_job_purpose job_lookup policy_lookup : ResolutionError
  repository_lookup missing_repository missing_credential_reference : ResolutionError
  inactive_credential_reference ambiguous_credential_reference : ResolutionError

abbrev pub Resolution : Type 0
Resolution = Result ResolutionError RepositoryCredentialReference

unfoldable pub purpose_for_job_type : JobType → Option CredentialPurpose
purpose_for_job_type backup = some backup_write
purpose_for_job_type verify = some restore_read
purpose_for_job_type retention = some retention_purpose
purpose_for_job_type _ = none

-- The stores that the resolver reads.
pub record Vault : Type 0 where
  pub jobs : Jobs
  pub policies : List BackupPolicy
  pub repositories : List BackupRepository
  pub references : List RepositoryCredentialReference

infixl 5 ◌>>=◌ ◌>>◌
abbrev pub ◌>>=◌ {ℓ κ} :
    {A : Type ℓ} {B : Type κ}
    → Result ResolutionError A
    → (A → Result ResolutionError B)
    → Result ResolutionError B
ok a >>= f = f a
err e >>= f = err e

abbrev pub ◌>>◌ {ℓ} :
    {B : Type ℓ}
    → Result ResolutionError (Unit {0})
    → Result ResolutionError B
    → Result ResolutionError B
m >> k = m >>= λ _. k

abbrev pub or_fail {ℓ} : {A : Type ℓ} → Option A → ResolutionError → Result ResolutionError A
or_fail none e = err e
or_fail (some a) e = ok a

abbrev pub holds : Bool → ResolutionError → Result ResolutionError (Unit {0})
holds true e = ok tt
holds false e = err e

-- The loop over the references: `selected` is what it has met so far.
unfoldable pub select_reference :
    CredentialPurpose
    → List RepositoryCredentialReference
    → Option RepositoryCredentialReference
    → Result ResolutionError (Option RepositoryCredentialReference)
select_reference purpose [] selected = ok selected
select_reference purpose (ref ∷ refs) selected = elim (same_purpose ref.purpose purpose) [
  | false ↦ select_reference purpose refs selected
  | true ↦ elim selected [
    | none ↦ select_reference purpose refs (some ref)
    | some _ ↦ err ambiguous_credential_reference
  ]
]

abbrev pub is_active : CredentialReferenceStatus → Bool
is_active active_reference = true
is_active _ = false

abbrev pub of_repository : ℕ → RepositoryCredentialReference → Bool
of_repository repo ref = ref.repository_id == repo

-- ListByRepositoryID, ordered by the text of the purpose.
abbrev purpose_rank : CredentialPurpose → ℕ
purpose_rank backup_write = 0
purpose_rank repository_admin = 1
purpose_rank restore_read = 2
purpose_rank retention_purpose = 3

unfoldable pub list_references :
    ℕ → List RepositoryCredentialReference → List RepositoryCredentialReference
list_references repo refs =
    order_by (λ y x. ltb (purpose_rank y.purpose) (purpose_rank x.purpose))
      (select_where (of_repository repo) refs)

unfoldable pub resolve_for_agent : Vault → ℕ → ℕ → Resolution
resolve_for_agent v system_id id = do
  owned ← or_fail (find job_id id v.jobs) job_lookup
  holds (owned.system_id == system_id) unauthorized_job
  purpose ← or_fail (purpose_for_job_type owned.type) unsupported_job_purpose
  policy ← or_fail (find policy_key owned.policy_id v.policies) policy_lookup
  repo ← or_fail policy.repository_id missing_repository
  _ ← or_fail (find repository_key repo v.repositories) repository_lookup
  selected ← select_reference purpose (list_references repo v.references) none
  ref ← or_fail selected missing_credential_reference
  holds (is_active ref.status) inactive_credential_reference
  ok ref

unfoldable pub legacy_fallback_permitted :
    List RepositoryCredentialReference → CredentialPurpose → Bool
legacy_fallback_permitted [] purpose = true
legacy_fallback_permitted (ref ∷ refs) purpose =
    if same_purpose ref.purpose purpose then false else legacy_fallback_permitted refs purpose
