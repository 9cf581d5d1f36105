-- ===== src/Audit.antt =====
-- internal/audit/audit.go: audit entries, their builder and the append-only log. The log is the list
-- of its entries, oldest first.
use opensourcebackup.Prelude.{
  Bool, List, String, [], false, if◌then◌else◌, true, ℕ, ◌++◌, ◌==◌, ◌∷◌,
}

-- `no_actor` and `no_severity` are the empty text.
pub data ActorType : Type 0 where
  no_actor admin agent scheduler system : ActorType

pub data Severity : Type 0 where
  no_severity info warning critical : Severity

-- The actions and resources that the modelled handlers log.
pub data Action : Type 0 where
  backup_cancelled retention_completed retention_failed : Action
  repository_created repository_updated repository_deleted auth_login auth_login_fail
        enrollment_token_created agent_enrolled system_operation_state_changed :
      Action

-- The legacy aliases ActionCreate, ActionUpdate and ActionDelete.
abbrev pub action_create : Action
action_create = repository_created

abbrev pub action_update : Action
action_update = repository_updated

abbrev pub action_delete : Action
action_delete = repository_deleted

pub data ResourceType : Type 0 where
  job retention_run resource_auth resource_agent resource_system : ResourceType

pub record Entry : Type 0 where
  pub timestamp : ℕ
  pub action : Action
  pub resource_type : ResourceType
  pub resource_id : ℕ
  pub actor_type : ActorType
  pub actor : String
  pub ip : String
  pub user_agent : String
  pub details : String
  pub severity : Severity
  pub success : Bool

-- Event, and the methods of the builder.
unfoldable pub event : Action → ResourceType → ℕ → Entry
event action resource_type resource_id = record {
  timestamp = 0;
  action = action;
  resource_type = resource_type;
  resource_id = resource_id;
  actor_type = system;
  actor = "";
  ip = "";
  user_agent = "";
  details = "";
  severity = info;
  success = true;
}

abbrev pub by : ActorType → Entry → Entry
by t e = record e { actor_type = t }

abbrev pub from_ip : String → Entry → Entry
from_ip ip e = record e { ip = ip }

abbrev pub with_user_agent : String → Entry → Entry
with_user_agent ua e = record e { user_agent = ua }

abbrev pub with_details : String → Entry → Entry
with_details d e = record e { details = d }

abbrev pub with_severity : Severity → Entry → Entry
with_severity s e = record e { severity = s }

abbrev pub as_failed : Entry → Entry
as_failed e = record e { success = false }

abbrev default_actor : ActorType → ActorType
default_actor no_actor = system
default_actor t = t

abbrev default_severity : Severity → Severity
default_severity no_severity = info
default_severity s = s

-- Append: the defaults, and the insertion.
unfoldable pub append : ℕ → Entry → List Entry → List Entry
append now e log =
    log
    ++ record e {
      timestamp = (if e.timestamp == 0 then now else e.timestamp);
      actor_type = default_actor e.actor_type;
      severity = default_severity e.severity;
    }
      ∷ []
