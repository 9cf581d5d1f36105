-- ===== src/Secrets/Authorization.antt =====
-- internal/secrets/resolution.go: what a successful resolution proves.
use opensourcebackup.Prelude.{
  ==_iff, All, All-order_by, Bool, Bool-cases, List, Option, [], ap, arith, count_where, false, inl,
  inr, none, refl, select_where, some, subst, sym, true, ℕ, ◌==◌, ◌∙◌, ◌∷◌, ◌≡◌, ◌≤◌,
}
use opensourcebackup.Catalog.Models.{BackupJob, BackupPolicy, Result, err, job_id, ok, policy_key}
use opensourcebackup.Catalog.Repositories.{
  CredentialPurpose, RepositoryCredentialReference, active_reference, repository_key, same_purpose,
}
use opensourcebackup.Prelude.Table.{find}
use opensourcebackup.Secrets.{
  Resolution, ResolutionError, Vault, holds, inactive_credential_reference, is_active, job_lookup,
  legacy_fallback_permitted, list_references, missing_credential_reference, missing_repository,
  of_repository, or_fail, policy_lookup, purpose_for_job_type, repository_lookup, resolve_for_agent,
  select_reference, unauthorized_job, unsupported_job_purpose, ◌>>=◌, ◌>>◌,
}

-- Inversion of a chain that succeeds.
bind-ok :
    {A B : Type 0} (m : Result ResolutionError A) (f : A → Result ResolutionError B) (b : B)
    → (m >>= f) ≡ ok b
    → (a : A) × (m ≡ ok a) × (f a ≡ ok b)
bind-ok (ok a) f b h = (a, refl, h)
bind-ok (err e) f b h = absurd (ground arith)

or_fail-ok :
    {A B : Type 0} (o : Option A) (e : ResolutionError) (f : A → Result ResolutionError B) (b : B)
    → (or_fail o e >>= f) ≡ ok b
    → (a : A) × (o ≡ some a) × (f a ≡ ok b)
or_fail-ok none e f b h = absurd (ground arith)
or_fail-ok (some a) e f b h = (a, refl, h)

holds-ok :
    {B : Type 0} (t : Bool) (e : ResolutionError) (m : Result ResolutionError B) (b : B)
    → (holds t e >> m) ≡ ok b
    → (t ≡ true) × (m ≡ ok b)
holds-ok true e m b h = (refl, h)
holds-ok false e m b h = absurd (ground arith)

abbrev from_some :
    RepositoryCredentialReference
    → Option RepositoryCredentialReference
    → RepositoryCredentialReference
from_some d none = d
from_some d (some r) = r

abbrev from_ok : RepositoryCredentialReference → Resolution → RepositoryCredentialReference
from_ok d (err _) = d
from_ok d (ok r) = r

module _ (purpose : CredentialPurpose) where
  abbrev of_purpose : RepositoryCredentialReference → Bool
  of_purpose ref = same_purpose ref.purpose purpose

  select_reference-some :
      (refs : List RepositoryCredentialReference) (r : RepositoryCredentialReference)
      (o : Option RepositoryCredentialReference)
      → select_reference purpose refs (some r) ≡ ok o
      → (o ≡ some r) × (count_where of_purpose refs ≡ 0)
  unfolding select_reference
  select_reference-some [] r o h = (ground (arith, h), refl)
  select_reference-some (ref ∷ refs) r o h = elim (Bool-cases (of_purpose ref)) [
    | inl hit ↦ absurd (ground (arith, hit, h))
    | inr miss ↦
        let (same, none_left) = select_reference-some refs r o (ground (arith, miss, h)) in
        (same, ground (arith, miss, none_left))
  ]

  select_reference-none :
      (P : RepositoryCredentialReference → Type 0) (refs : List RepositoryCredentialReference)
      (ref : RepositoryCredentialReference)
      → select_reference purpose refs none ≡ ok (some ref)
      → All P refs
      → P ref × (of_purpose ref ≡ true) × (count_where of_purpose refs ≡ 1)
  unfolding select_reference
  select_reference-none P [] ref h a = absurd (ground (arith, h))
  select_reference-none P (r ∷ refs) ref h a = elim (Bool-cases (of_purpose r)) [
    | inl hit ↦
        let (same, none_left) = select_reference-some refs r (some ref) (ground (arith, hit, h)) in
        let eq : ref ≡ r = ap (from_some ref) same in
        (subst P (sym eq) a.0, ap of_purpose eq ∙ hit, ground (arith, hit, none_left))
    | inr miss ↦
        let (p, mine, one) = select_reference-none P refs ref (ground (arith, miss, h)) a.1 in
        (p, mine, ground (arith, miss, one))
  ]

same_purpose-eq : (p q : CredentialPurpose) → same_purpose p q ≡ true → p ≡ q
same_purpose-eq p q h = ground arith

filtered :
    (repo : ℕ) (refs : List RepositoryCredentialReference)
    → All (λ x. (x.repository_id == repo) ≡ true) (select_where (of_repository repo) refs)
filtered repo [] = tt
filtered repo (r ∷ refs) = elim (Bool-cases (r.repository_id == repo)) [
  | inl hit ↦ rw hit (hit, filtered repo refs)
  | inr miss ↦ rw miss (filtered repo refs)
]

list_references-repository :
    (repo : ℕ) (refs : List RepositoryCredentialReference)
    → All (λ x. (x.repository_id == repo) ≡ true) (list_references repo refs)
unfolding list_references
list_references-repository repo refs = All-order_by _ _ _ (filtered repo refs)

-- What the caller may rely on.
pub record Authorized (v : Vault) (system_id id : ℕ) (ref : RepositoryCredentialReference)
    : Type 0 where
  pub owned : BackupJob
  pub policy : BackupPolicy
  pub there : find job_id id v.jobs ≡ some owned
  pub caller : owned.system_id ≡ system_id
  pub implied : purpose_for_job_type owned.type ≡ some ref.purpose
  pub governed : find policy_key owned.policy_id v.policies ≡ some policy
  pub stored : policy.repository_id ≡ some ref.repository_id
  pub active : ref.status ≡ active_reference
  pub only_one :
      count_where
        (λ r. same_purpose r.purpose ref.purpose)
        (list_references ref.repository_id v.references)
      ≡ 1

collect :
    (v : Vault) (system_id id repo : ℕ) (owned : BackupJob) (policy : BackupPolicy)
    (purpose : CredentialPurpose) (r : RepositoryCredentialReference)
    → find job_id id v.jobs ≡ some owned
    → (owned.system_id == system_id) ≡ true
    → purpose_for_job_type owned.type ≡ some purpose
    → find policy_key owned.policy_id v.policies ≡ some policy
    → policy.repository_id ≡ some repo
    → select_reference purpose (list_references repo v.references) none ≡ ok (some r)
    → is_active r.status ≡ true
    → Authorized v system_id id r
collect v system_id id repo owned policy purpose r there mine implied governed stored picked act =
    let (repo_hit, purpose_hit, one) =
      select_reference-none purpose (λ x. (x.repository_id == repo) ≡ true)
        (list_references repo v.references) r picked
        (list_references-repository repo v.references) in
    let repo_eq = sym ((==_iff r.repository_id repo).0 repo_hit) in
    let purpose_eq = sym (same_purpose-eq r.purpose purpose purpose_hit) in
    record {
      owned = owned;
      policy = policy;
      there = there;
      caller = (==_iff owned.system_id system_id).0 mine;
      implied = implied ∙ ap some purpose_eq;
      governed = governed;
      stored = stored ∙ ap some repo_eq;
      active = ground (arith, act);
      only_one =
          ap
            (λ k.
              count_where (λ x. same_purpose x.purpose r.purpose) (list_references k v.references))
            (sym repo_eq)
          ∙ ap
              (λ p. count_where (λ x. same_purpose x.purpose p) (list_references repo v.references))
              (sym purpose_eq)
          ∙ one;
    }

-- A resolved reference belongs to the repository of the policy of a job of the calling system, and
-- has the purpose that the job's type implies; it is active, and it is the only one that the
-- repository has for the purpose.
pub resolve_for_agent-Authorized :
    (v : Vault) (system_id id : ℕ) (ref : RepositoryCredentialReference)
    → resolve_for_agent v system_id id ≡ ok ref
    → Authorized v system_id id ref
unfolding resolve_for_agent
resolve_for_agent-Authorized v system_id id ref h =
    let (owned, there, h1) = or_fail-ok (find job_id id v.jobs) job_lookup _ ref h in
    let (mine, h2) = holds-ok (owned.system_id == system_id) unauthorized_job _ ref h1 in
    let (purpose, implied, h3) =
      or_fail-ok (purpose_for_job_type owned.type) unsupported_job_purpose _ ref h2 in
    let (policy, governed, h4) =
      or_fail-ok (find policy_key owned.policy_id v.policies) policy_lookup _ ref h3 in
    let (repo, stored, h5) = or_fail-ok policy.repository_id missing_repository _ ref h4 in
    let (_, _, h6) =
      or_fail-ok (find repository_key repo v.repositories) repository_lookup _ ref h5 in
    let (selected, picked, h7) =
      bind-ok (select_reference purpose (list_references repo v.references) none) _ ref h6 in
    let (r, there_r, h8) = or_fail-ok selected missing_credential_reference _ ref h7 in
    let (act, h9) = holds-ok (is_active r.status) inactive_credential_reference _ ref h8 in
    subst (Authorized v system_id id) (ap (from_ok r) h9) (
      collect v system_id id repo owned policy purpose r there mine implied governed stored
        (picked ∙ ap ok there_r) act)

legacy_fallback_permitted-count :
    (refs : List RepositoryCredentialReference) (purpose : CredentialPurpose)
    → 1 ≤ count_where (λ r. same_purpose r.purpose purpose) refs
    → legacy_fallback_permitted refs purpose ≡ false
unfolding legacy_fallback_permitted
legacy_fallback_permitted-count [] purpose h = absurd (ground arith)
legacy_fallback_permitted-count (ref ∷ refs) purpose h =
    elim (Bool-cases (same_purpose ref.purpose purpose)) [
      | inl hit ↦ rw hit refl
      | inr miss ↦ rw miss (legacy_fallback_permitted-count refs purpose (ground (arith, miss, h)))
    ]

-- Where a reference is resolved, the legacy password is not a fallback for its purpose.
pub legacy_fallback_permitted-resolve_for_agent :
    (v : Vault) (system_id id : ℕ) (ref : RepositoryCredentialReference)
    → resolve_for_agent v system_id id ≡ ok ref
    → legacy_fallback_permitted (list_references ref.repository_id v.references) ref.purpose ≡ false
legacy_fallback_permitted-resolve_for_agent v system_id id ref h =
    let a = resolve_for_agent-Authorized v system_id id ref h in
    legacy_fallback_permitted-count (list_references ref.repository_id v.references) ref.purpose
      (omega (arith, a.only_one))
