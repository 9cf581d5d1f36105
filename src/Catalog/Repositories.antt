-- ===== src/Catalog/Repositories.antt =====
-- internal/catalog/models.go: repositories and what an operator declares of their security.
use opensourcebackup.Prelude.{
  Bool, Option, String, false, if◌then◌else◌, none, some, str_eq, true, ℕ,
}

pub data RepositoryBackendType : Type 0 where
  rest_server s3 minio filesystem unknown_backend : RepositoryBackendType

pub data RepositoryManagementMode : Type 0 where
  legacy managed : RepositoryManagementMode

pub data SecurityProvenance : Type 0 where
  unknown_provenance declared discovered verified : SecurityProvenance

pub record RepositorySecurityPosture : Type 0 where
  pub encryption : SecurityProvenance
  pub object_lock : SecurityProvenance
  pub immutability : SecurityProvenance

-- `unset_mode` is the empty text.
pub data ImmutableMode : Type 0 where
  unset_mode no_protection object_lock_mode worm append_only unknown_mode : ImmutableMode

unfoldable pub is_protected : ImmutableMode → Bool
is_protected no_protection = false
is_protected unknown_mode = false
is_protected unset_mode = false
is_protected _ = true

pub record BackupRepository : Type 0 where
  pub id : ℕ
  pub type : String
  pub location : String
  pub backend_type : RepositoryBackendType
  pub management_mode : RepositoryManagementMode
  pub encryption_mode : Option String
  pub object_lock_enabled : Bool
  pub immutable_mode : ImmutableMode
  pub security_posture : RepositorySecurityPosture
  pub retention_policy_id : Option ℕ
  pub created_at : ℕ

abbrev pub repository_key : BackupRepository → ℕ
repository_key r = r.id

-- DeclaredSecurityPosture. `trim_space` is strings.TrimSpace of Go's library.
unfoldable pub declared_security_posture :
    (String → String) → BackupRepository → RepositorySecurityPosture
declared_security_posture trim_space r = record {
  encryption = elim r.encryption_mode [
    | none ↦ unknown_provenance
    | some mode ↦ if str_eq (trim_space mode) "" then unknown_provenance else declared
  ];
  object_lock = if r.object_lock_enabled then declared else unknown_provenance;
  immutability = if is_protected r.immutable_mode then declared else unknown_provenance;
}

abbrev pub is_verified : SecurityProvenance → Bool
is_verified verified = true
is_verified _ = false

pub data CredentialPurpose : Type 0 where
  backup_write restore_read retention_purpose repository_admin : CredentialPurpose

abbrev pub same_purpose : CredentialPurpose → CredentialPurpose → Bool
same_purpose backup_write backup_write = true
same_purpose restore_read restore_read = true
same_purpose retention_purpose retention_purpose = true
same_purpose repository_admin repository_admin = true
same_purpose _ _ = false

pub data CredentialReferenceStatus : Type 0 where
  active_reference disabled revoked : CredentialReferenceStatus

pub record RepositoryCredentialReference : Type 0 where
  pub id : ℕ
  pub repository_id : ℕ
  pub purpose : CredentialPurpose
  pub provider_type : String
  pub reference : String
  pub status : CredentialReferenceStatus
  pub created_at : ℕ
  pub updated_at : ℕ
