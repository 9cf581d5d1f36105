-- ===== src/Api/Server.antt =====
-- internal/api/handler.go: the state behind the handlers, which is the tables of the stores and the
-- audit log, and what a handler takes from its surroundings.
use opensourcebackup.Prelude.{Bool, List, Option, String, ℕ}
use opensourcebackup.Audit.{Entry}
use opensourcebackup.Catalog.Dispatch.Guard.{Database, Stage}
use opensourcebackup.Catalog.Dispatch.Limits.{DispatchLimits}
use opensourcebackup.Catalog.Jobs.Statements.{Jobs}
use opensourcebackup.Catalog.Repositories.{BackupRepository}
use opensourcebackup.Catalog.RestoreTests.{RestoreTests}
use opensourcebackup.Catalog.Snapshots.{Snapshots}

pub record Server : Type 0 where
  pub catalog : Database
  pub snapshots : Snapshots
  pub restore_tests : RestoreTests
  pub repositories : List BackupRepository
  pub audit_log : List Entry

-- The clock of the call, the key that the database gives a new row, the dispatch guard if one is
-- wired, the statements of its transaction that fail, uuid.UUID's String, the text that
-- fmt.Sprintf makes of the number of removed snapshots, and the hash of the client's address.
pub record Surroundings : Type 0 where
  pub now : ℕ
  pub new_id : ℕ
  pub dispatch : Option DispatchLimits
  pub faults : Stage → Bool
  pub uuid_text : ℕ → String
  pub removed_text : ℕ → String
  pub client_ip : String

abbrev pub with_jobs : Jobs → Server → Server
with_jobs jobs s = record s { catalog = record s.catalog { jobs = jobs } }
